-- ===== src/Etherfi/Combine/Conserved.antt =====
-- The report for all holders gives out every unit once.
use d8x_etherfi.Base.{
  ℕ, List, [], ◌∷◌, ◌++◌, Text, some, text_eq, false, map, ◌≡◌, refl, ap, sym, ◌∙◌, inl, inr,
  Option-cases, Bool-cases, arith, length,
}
use d8x_etherfi.Base.Int.{ℤ, pos, ◌+ℤ◌, eqb_ℤ, eqb_ℤ_iff, int_laws, parts_of_eq}
use d8x_etherfi.Base.Dict.{Dict, lookup, total, total-insert, balance_of}
use d8x_etherfi.Etherfi.Combine.{
  Float, Balance, reported, addr_loop, trader_loop, combine_balances, entry, with_trader, zeroed,
}
use d8x_etherfi.Etherfi.Shares.Bounds.{sum_ℤ}
use mathlib.Core.Path.{subst, ap₂}
use mathlib.Core.Logic.{∥∥₁_elim}
use mathlib.Core.List.{Perm, Permᴰ, map-append}

-- A report written out as whole amounts of the smallest unit.
abbrev pub Amounts : Type 0
Amounts = List (Text × ℤ)

total-append : (xs ys : Amounts) → total (xs ++ ys) ≡ total xs +ℤ total ys
total-append [] ys = omega int_laws
total-append ((a, x) ∷ xs) ys = omega (int_laws, parts_of_eq (total-append xs ys))

pub with_trader_lem :
    (a : Text) (lp : ℤ) (m : Dict Text ℤ) → with_trader a lp m ≡ lp +ℤ balance_of a m
with_trader_lem a lp m = elim (Option-cases (lookup a m)) [
  | inl p ↦ rw (p, balance_of, with_trader) (omega int_laws)
  | inr (t, p) ↦ rw (p, balance_of, with_trader)
]

pub total-zeroed : (a : Text) (m : Dict Text ℤ) → total (zeroed a m) +ℤ balance_of a m ≡ total m
total-zeroed a m = elim (Option-cases (lookup a m)) [
  | inl p ↦
      let nothing : balance_of a m ≡ pos 0 = rw (p, balance_of) in
      rw (p, zeroed) (omega (int_laws, parts_of_eq nothing))
  | inr (t, p) ↦ rw (p, zeroed) (omega (int_laws, parts_of_eq (total-insert a (pos 0) m)))
]

ℤ-set : IsSet ℤ
ℤ-set = hlevel

total-Permᴰ : {xs ys : Amounts} → Permᴰ xs ys → total xs ≡ total ys
total-Permᴰ Permᴰ.nil = refl
total-Permᴰ (Permᴰ.cons e p) = ap₂ (λ (x : Text × ℤ) t. x.1 +ℤ t) e (total-Permᴰ p)
total-Permᴰ (Permᴰ.swap e f) =
    omega (int_laws, parts_of_eq (ap (λ x. x.1) e), parts_of_eq (ap (λ x. x.1) f))
total-Permᴰ (Permᴰ.trans p q) = total-Permᴰ p ∙ total-Permᴰ q

-- The sum of the amounts does not depend on their order.
pub total-Perm : {xs ys : Amounts} → Perm xs ys → total xs ≡ total ys
total-Perm p = ∥∥₁_elim p (ℤ-set _ _) total-Permᴰ

module _ {F : Type 0} (float : Float F) (dec_n : ℕ) where
  abbrev pub report : Text × ℤ → Balance F
  report (a, x) = reported float dec_n a x

  -- A list of balances that is the report of amounts with the sum `t`.
  abbrev pub Stands : List (Balance F) → ℤ → Type 0
  Stands out t = (xs : Amounts) × (out ≡ map report xs) × (total xs ≡ t)

  trader_loop-Stands : (xs : Amounts) → Stands (trader_loop float dec_n xs) (total xs)
  unfolding trader_loop
  trader_loop-Stands [] = ([], refl, refl)
  trader_loop-Stands ((a, x) ∷ xs) =
      let (ys, p, q) = trader_loop-Stands xs in
      elim (Bool-cases (eqb_ℤ x (pos 0))) [
        | inl z ↦
            rw (trader_loop, z)
              (ys, p, omega (int_laws, parts_of_eq q, parts_of_eq ((eqb_ℤ_iff x (pos 0)).0 z)))
        | inr nz ↦
            rw (trader_loop, nz)
              ((a, x) ∷ ys, ap (◌∷◌ (reported float dec_n a x)) p, ap (λ t. x +ℤ t) q)
      ]

  -- One round of the loop adds the address's balance, or nothing if that is 0.
  entry-Stands :
      (a : Text) (bal : ℤ) (out : List (Balance F)) (t : ℤ)
      → Stands out t
      → Stands (entry float dec_n false a bal ++ out) (bal +ℤ t)
  entry-Stands a bal out t (xs, p, q) = elim (Bool-cases (eqb_ℤ bal (pos 0))) [
    | inl z ↦
        rw z (xs, p, omega (int_laws, parts_of_eq q, parts_of_eq ((eqb_ℤ_iff bal (pos 0)).0 z)))
    | inr nz ↦ rw nz ((a, bal) ∷ xs, ap (◌∷◌ (reported float dec_n a bal)) p, ap (λ u. bal +ℤ u) q)
  ]

  addr_loop-Stands :
      (addrs : List Text) (lps : List ℤ) (m : Dict Text ℤ)
      → length addrs ≡ length lps
      → (out : List (Balance F)) × (left : Dict Text ℤ) × (t : ℤ) × (addr_loop float dec_n false
            addrs lps m
          ≡ some (out, left))
        × Stands out t
        × (t +ℤ total left ≡ sum_ℤ lps +ℤ total m)
  unfolding addr_loop
  addr_loop-Stands [] [] m l = ([], m, pos 0, refl, ([], refl, refl), refl)
  addr_loop-Stands [] (lp ∷ lps) m l = absurd (omega arith)
  addr_loop-Stands (a ∷ addrs) [] m l = absurd (omega arith)
  addr_loop-Stands (a ∷ addrs) (lp ∷ lps) m l =
      let (out, left, t, e, stands, sum) = addr_loop-Stands addrs lps (zeroed a m) (omega arith) in
      let bal = with_trader a lp m in
      (
        entry float dec_n false a bal ++ out,
        left,
        bal +ℤ t,
        rw (addr_loop, e),
        entry-Stands a bal out t stands,
        omega (
          int_laws,
          parts_of_eq (with_trader_lem a lp m),
          parts_of_eq (total-zeroed a m),
          parts_of_eq sum,
        ),
      )

  append-Stands :
      (out more : List (Balance F)) (t u : ℤ)
      → Stands out t
      → Stands more u
      → Stands (out ++ more) (t +ℤ u)
  append-Stands out more t u (xs, p, q) (ys, p', q') =
      (xs ++ ys, ap₂ ◌++◌ p p' ∙ sym (map-append report xs ys), total-append xs ys ∙ ap₂ ◌+ℤ◌ q q')

  -- With one provider's part for each address, and a `range` that runs through the whole map, the
  -- report for all holders does not panic, and its entries are amounts that add up to the parts
  -- of the providers and the balances of the traders.
  pub combine_balances-Stands :
      (range : Dict Text ℤ → Amounts) (addrs : List Text) (lps : List ℤ) (m : Dict Text ℤ)
      → ((d : Dict Text ℤ) → Perm (range d) d)
      → length addrs ≡ length lps
      → (out : List (Balance F)) × (combine_balances float dec_n range addrs false lps m ≡ some out)
        × Stands out (sum_ℤ lps +ℤ total m)
  unfolding combine_balances
  combine_balances-Stands range addrs lps m runs l =
      let (out, left, t, e, stands, sum) = addr_loop-Stands addrs lps m l in
      (
        out ++ trader_loop float dec_n (range left),
        rw (e, combine_balances),
        subst (Stands (out ++ trader_loop float dec_n (range left)))
            (ap (λ u. t +ℤ u) (total-Perm (runs left)) ∙ sum)
            (append-Stands out (trader_loop float dec_n (range left)) t (total (range left)) stands
              (trader_loop-Stands (range left))),
      )
