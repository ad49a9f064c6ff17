-- ===== src/Etherfi/Combine/Exact.antt =====
-- The report for the addresses of a request, and the panic that a missing part of a provider causes.
use d8x_etherfi.Base.{
  ℕ, List, [], ◌∷◌, ◌++◌, Text, none, some, text_eq, text_beq_ne, Bool, true, if◌then◌else◌, ◌≡◌,
  ◌≢◌, refl, ap, ◌∙◌, inl, inr, Option-cases, Bool-cases, arith, length, ◌≤◌, ◌<◌, All,
}
use mathlib.Core.Path.{ap₂}
use d8x_etherfi.Base.Int.{ℤ, pos, ◌+ℤ◌, eqb_ℤ}
use d8x_etherfi.Base.Dict.{Dict, lookup, balance_of, balance_of-insert}
use d8x_etherfi.Etherfi.Combine.{
  Float, Balance, balance, reported, addr_loop, combine_balances, entry, with_trader, zeroed,
}
use d8x_etherfi.Etherfi.Combine.Conserved.{Amounts, with_trader_lem}

abbrev pub Distinct : List Text → Type 0
Distinct [] = Unit
Distinct (a ∷ addrs) = All (λ b. a ≢ b) addrs × Distinct addrs

balance_of-zeroed :
    (a b : Text) (m : Dict Text ℤ) → a ≢ b → balance_of b (zeroed a m) ≡ balance_of b m
balance_of-zeroed a b m h = elim (Option-cases (lookup a m)) [
  | inl p ↦ rw (p, zeroed)
  | inr (t, p) ↦ rw (p, zeroed) (balance_of-insert b a (pos 0) m ∙ rw (text_beq_ne a b h))
]

module _ {F : Type 0} (float : Float F) (dec_n : ℕ) where
  -- The line of one address: 0, or its part as a provider and its balance as a trader together.
  abbrev pub line : Text → ℤ → Balance F
  line a bal =
      if eqb_ℤ bal (pos 0) then balance float dec_n a float.zero else reported float dec_n a bal

  -- The report as the request reads: a line for each address, in its order.
  abbrev pub lines : List Text → List ℤ → Dict Text ℤ → List (Balance F)
  lines [] lps m = []
  lines (a ∷ addrs) [] m = []
  lines (a ∷ addrs) (lp ∷ lps) m = line a (lp +ℤ balance_of a m) ∷ lines addrs lps m

  lines-zeroed :
      (a : Text) (addrs : List Text) (lps : List ℤ) (m : Dict Text ℤ)
      → All (λ b. a ≢ b) addrs
      → lines addrs lps (zeroed a m) ≡ lines addrs lps m
  lines-zeroed a [] lps m h = refl
  lines-zeroed a (b ∷ addrs) [] m h = refl
  lines-zeroed a (b ∷ addrs) (lp ∷ lps) m (h, hs) =
      ap₂ (λ u us. line b (lp +ℤ u) ∷ us) (balance_of-zeroed a b m h)
        (lines-zeroed a addrs lps m hs)

  entry-exact : (a : Text) (bal : ℤ) → entry float dec_n true a bal ≡ line a bal ∷ []
  entry-exact a bal = elim (Bool-cases (eqb_ℤ bal (pos 0))) [ inl z ↦ rw z | inr nz ↦ rw nz ]

  addr_loop-exact :
      (addrs : List Text) (lps : List ℤ) (m : Dict Text ℤ)
      → Distinct addrs
      → length addrs ≤ length lps
      → (left : Dict Text ℤ) × (addr_loop float dec_n true addrs lps m
          ≡ some (lines addrs lps m, left))
  unfolding addr_loop
  addr_loop-exact [] lps m d l = (m, refl)
  addr_loop-exact (a ∷ addrs) [] m d l = absurd (omega arith)
  addr_loop-exact (a ∷ addrs) (lp ∷ lps) m (h, d) l =
      let (left, e) = addr_loop-exact addrs lps (zeroed a m) d (omega arith) in
      let first =
        entry-exact a (with_trader a lp m) ∙ ap (λ b. line a b ∷ []) (with_trader_lem a lp m) in
      (
        left,
        rw (addr_loop, e) (ap₂ (λ x y. some (x ++ y, left)) first (lines-zeroed a addrs lps m h)),
      )

  -- For distinct addresses, with a provider's part for each, the report of a request has one line
  -- for each of them, in order, with its part as a provider and its balance as a trader, even if
  -- that is 0.
  pub combine_balances-lines :
      (range : Dict Text ℤ → Amounts) (addrs : List Text) (lps : List ℤ) (m : Dict Text ℤ)
      → Distinct addrs
      → length addrs ≤ length lps
      → combine_balances float dec_n range addrs true lps m ≡ some (lines addrs lps m)
  unfolding combine_balances
  combine_balances-lines range addrs lps m d l =
      let (left, e) = addr_loop-exact addrs lps m d l in rw (combine_balances, e)

  addr_loop-short :
      (exact : Bool) (addrs : List Text) (lps : List ℤ) (m : Dict Text ℤ)
      → length lps < length addrs
      → addr_loop float dec_n exact addrs lps m ≡ none
  unfolding addr_loop
  addr_loop-short exact [] lps m l = absurd (omega arith)
  addr_loop-short exact (a ∷ addrs) [] m l = refl
  addr_loop-short exact (a ∷ addrs) (lp ∷ lps) m l =
      rw (addr_loop, addr_loop-short exact addrs lps (zeroed a m) (omega arith))

  -- With fewer parts of providers than addresses the loop reads past the end, and panics.
  pub combine_balances-short :
      (range : Dict Text ℤ → Amounts) (exact : Bool) (addrs : List Text) (lps : List ℤ)
      (m : Dict Text ℤ)
      → length lps < length addrs
      → combine_balances float dec_n range addrs exact lps m ≡ none
  unfolding combine_balances
  combine_balances-short range exact addrs lps m l =
      rw (combine_balances, addr_loop-short exact addrs lps m l)
