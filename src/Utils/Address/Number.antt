-- ===== src/Utils/Address/Number.antt =====
-- A valid address is a number of 160 bits in hexadecimal, and its lower-case text is a normal form
-- of that number: so a map keyed by lower-case texts has one key for each account.
use d8x_etherfi.Base.{
  ℕ, ◌+◌, ◌-◌, ◌*◌, ◌<◌, ◌≡◌, refl, ap, sym, ◌∙◌, ◌↔◌, inl, inr, true, [], ◌∷◌, map, Text, leb,
  if◌then◌else◌, length, arith, Bool-cases, length-map,
}
use mathlib.Core.Bool.{false≢true}
use mathlib.Core.Path.{ap₂}
use d8x_etherfi.Utils.Address.{is_hex, all_hex, is_valid_evm_addr, lower, to_lower}

-- The value of a hexadecimal digit, in either case.
abbrev pub digit : ℕ → ℕ
digit c = if leb c b'9' then c - 48 else if leb c b'F' then c - 55 else c - 87

abbrev pub digits_value : ℕ → Text → ℕ
digits_value acc [] = acc
digits_value acc (c ∷ s) = digits_value (acc * 16 + digit c) s

-- The number that the text "0x…" writes.
abbrev pub number : Text → ℕ
number [] = 0
number (c ∷ []) = 0
number (c ∷ x ∷ s) = digits_value 0 s

digit-lower : (c : ℕ) → is_hex c ≡ true → (digit (lower c) ≡ digit c) × (digit c < 16)
digit-lower c h = ground arith

lower-hex : (c : ℕ) → is_hex c ≡ true → is_hex (lower c) ≡ true
lower-hex c h = ground arith

lower-digit_injective :
    (c d : ℕ) → is_hex c ≡ true → is_hex d ≡ true → digit c ≡ digit d → lower c ≡ lower d
lower-digit_injective c d h k e = ground arith

all_hex-cons : (c : ℕ) (s : Text) → all_hex (c ∷ s) ≡ true → (is_hex c ≡ true) × (all_hex s ≡ true)
all_hex-cons c s h = elim (Bool-cases (is_hex c)) [
  | inl p ↦ (p, rw p at h)
  | inr p ↦ absurd (false≢true (rw p at h))
]

all_hex-lower : (s : Text) → all_hex s ≡ true → all_hex (map lower s) ≡ true
all_hex-lower [] h = refl
all_hex-lower (c ∷ s) h = let (p, q) = all_hex-cons c s h in rw (lower-hex c p) (all_hex-lower s q)

digits_value-lower :
    (s : Text) (acc : ℕ) → all_hex s ≡ true → digits_value acc (map lower s) ≡ digits_value acc s
digits_value-lower [] acc h = refl
digits_value-lower (c ∷ s) acc h =
    let (p, q) = all_hex-cons c s h in
    rw ((digit-lower c p).0, digits_value) (digits_value-lower s (acc * 16 + digit c) q)

digits_value-injective :
    (s t : Text) (a b : ℕ)
    → length s ≡ length t
    → all_hex s ≡ true
    → all_hex t ≡ true
    → digits_value a s ≡ digits_value b t
    → (a ≡ b) × (map lower s ≡ map lower t)
digits_value-injective [] [] a b l h k e = (e, refl)
digits_value-injective [] (d ∷ t) a b l h k e = absurd (omega arith)
digits_value-injective (c ∷ s) [] a b l h k e = absurd (omega arith)
digits_value-injective (c ∷ s) (d ∷ t) a b l h k e =
    let (p, p') = all_hex-cons c s h in
    let (q, q') = all_hex-cons d t k in
    let (same, tails) =
      digits_value-injective s t (a * 16 + digit c) (b * 16 + digit d) (omega arith) p' q' e in
    let small = (digit-lower c p).1 in
    let small' = (digit-lower d q).1 in
    (omega arith, ap₂ ◌∷◌ (lower-digit_injective c d p q (omega arith)) tails)

-- A lower-cased valid address is valid, and writes the same number.
pub to_lower_valid :
    (s : Text)
    → is_valid_evm_addr s ≡ true
    → (is_valid_evm_addr (to_lower s) ≡ true) × (number (to_lower s) ≡ number s)
unfolding is_valid_evm_addr to_lower
to_lower_valid [] h = ground arith
to_lower_valid (c ∷ []) h = ground arith
to_lower_valid (c ∷ x ∷ s) h =
    ground (arith, all_hex-lower s, digits_value-lower s 0, length-map lower s)

valid-cases :
    (c x : ℕ) (s : Text)
    → is_valid_evm_addr (c ∷ x ∷ s) ≡ true
    → (c ≡ b'0') × (x ≡ b'x') × (length s ≡ 40) × (all_hex s ≡ true)
unfolding is_valid_evm_addr
valid-cases c x s h = ground arith

lower_of_number :
    (s t : Text)
    → is_valid_evm_addr s ≡ true
    → is_valid_evm_addr t ≡ true
    → number s ≡ number t
    → to_lower s ≡ to_lower t
unfolding is_valid_evm_addr to_lower
lower_of_number [] t h k e = absurd (false≢true h)
lower_of_number (c ∷ []) t h k e = absurd (false≢true h)
lower_of_number (c ∷ x ∷ s) [] h k e = absurd (false≢true k)
lower_of_number (c ∷ x ∷ s) (d ∷ []) h k e = absurd (false≢true k)
lower_of_number (c ∷ x ∷ s) (d ∷ y ∷ t) h k e =
    let (p, q, l, a) = valid-cases c x s h in
    let (p', q', l', b) = valid-cases d y t k in
    ap₂ (λ u us. lower u ∷ us) (p ∙ sym p')
      (ap₂ (λ u us. lower u ∷ us) (q ∙ sym q')
        (digits_value-injective s t 0 0 (l ∙ sym l') a b e).1)

-- Two valid addresses have one lower-case text exactly when they write one number.
pub to_lower_iff :
    (s t : Text)
    → is_valid_evm_addr s ≡ true
    → is_valid_evm_addr t ≡ true
    → (to_lower s ≡ to_lower t) ↔ (number s ≡ number t)
unfolding is_valid_evm_addr to_lower
to_lower_iff s t h k = (
  λ e. sym (to_lower_valid s h).1 ∙ ap number e ∙ (to_lower_valid t k).1,
  lower_of_number s t h k,
)
