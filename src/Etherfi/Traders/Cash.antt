-- ===== src/Etherfi/Traders/Cash.antt =====
-- What `collect` gathers: for each owner the sum of the cash of the owner's accounts, and the total.
use d8x_etherfi.Base.{
  ◌≡◌, refl, ap, sym, ◌∙◌, ◌≤◌, inl, inr, List, [], ◌∷◌, if◌then◌else◌, Text, text_beq,
  text_beq_iff, some, text_eq, Bool-cases, arith, length,
}
use d8x_etherfi.Base.Int.{ℤ, pos, ◌+ℤ◌, int_laws, parts_of_eq}
use d8x_etherfi.Base.Dict.{Dict, balance_of, total, total-insert, balance_of-insert, added_balance}
use mathlib.Core.Option.{some-injective}
use d8x_etherfi.Chain.{Address}
use d8x_etherfi.Etherfi.Traders.{add_cash, collect}

pub total-add_cash :
    (a : Text) (c : ℤ) (bal : Dict Text ℤ) → total (add_cash a c bal) ≡ total bal +ℤ c
total-add_cash a c bal =
    rw (added_balance a c bal)
      (omega (int_laws, parts_of_eq (total-insert a (balance_of a bal +ℤ c) bal)))

balance_of-add_cash :
    (a b : Text) (c : ℤ) (bal : Dict Text ℤ)
    → balance_of b (add_cash a c bal) ≡ balance_of b bal +ℤ (if text_beq a b then c else pos 0)
balance_of-add_cash a b c bal = elim (Bool-cases (text_beq a b)) [
  | inl same ↦
      rw (added_balance a c bal, balance_of-insert b a (balance_of a bal +ℤ c) bal, same)
        (ap (λ k. balance_of k bal +ℤ c) ((text_beq_iff a b).0 same))
  | inr other ↦
      rw (added_balance a c bal, balance_of-insert b a (balance_of a bal +ℤ c) bal, other)
        (omega int_laws)
]

module _ (key : Address → Text) (proxy : Text) where
  -- The cash of the accounts whose owner has the text `a`, the manager's own account left out.
  abbrev pub cash_of : Text → List Address → List ℤ → ℤ
  cash_of a (t ∷ ts) (c ∷ cash) =
      (if text_beq (key t) proxy then pos 0 else if text_beq (key t) a then c else pos 0)
      +ℤ cash_of a ts cash
  cash_of a [] cash = pos 0
  cash_of a (t ∷ ts) [] = pos 0

  cash_of-nil : (a : Text) (ts : List Address) → cash_of a ts [] ≡ pos 0
  cash_of-nil a [] = refl
  cash_of-nil a (t ∷ ts) = refl

  -- One amount for each trader is enough for the loop to end without a panic.
  pub collect_total :
      (ts : List Address) (cash : List ℤ) (bal : Dict Text ℤ) (tot : ℤ)
      → length ts ≤ length cash
      → (out : Dict Text ℤ × ℤ) × (collect key proxy ts cash bal tot ≡ some out)
  unfolding collect
  collect_total [] cash bal tot h = ((bal, tot), refl)
  collect_total (t ∷ ts) [] bal tot h = absurd (omega arith)
  collect_total (t ∷ ts) (c ∷ cash) bal tot h = elim (Bool-cases (text_beq (key t) proxy)) [
    | inl own ↦ rw (own, collect) (collect_total ts cash bal tot (omega arith))
    | inr other ↦
        rw (other, collect)
          (collect_total ts cash (add_cash (key t) c bal) (tot +ℤ c) (omega arith))
  ]

  -- From a map whose balances add up to the total so far, a loop that ends without a panic leaves
  -- a map whose balances add up to the total that is returned with it.
  pub collect_sum :
      (ts : List Address) (cash : List ℤ) (bal : Dict Text ℤ) (tot : ℤ) {bal' : Dict Text ℤ}
      {tot' : ℤ}
      → total bal ≡ tot
      → collect key proxy ts cash bal tot ≡ some (bal', tot')
      → total bal' ≡ tot'
  unfolding collect
  collect_sum [] cash bal tot h e =
      let p = some-injective _ _ e in sym (ap (λ o. total o.0) p) ∙ h ∙ ap (λ o. o.1) p
  collect_sum (t ∷ ts) [] bal tot h e = elim (Bool-cases (text_beq (key t) proxy)) [
    | inl own ↦ collect_sum ts [] bal tot h (rw (own, collect) at e)
    | inr other ↦ cc (rw (other, collect) at e)
  ]
  collect_sum (t ∷ ts) (c ∷ cash) bal tot h e = elim (Bool-cases (text_beq (key t) proxy)) [
    | inl own ↦ collect_sum ts cash bal tot h (rw (own, collect) at e)
    | inr other ↦
        collect_sum ts cash (add_cash (key t) c bal) (tot +ℤ c)
          (total-add_cash (key t) c bal ∙ ap (λ x. x +ℤ c) h) (rw (other, collect) at e)
  ]

  collect_balance_from :
      (a : Text) (ts : List Address) (cash : List ℤ) (bal : Dict Text ℤ) (tot : ℤ)
      {bal' : Dict Text ℤ} {tot' : ℤ}
      → collect key proxy ts cash bal tot ≡ some (bal', tot')
      → balance_of a bal' ≡ balance_of a bal +ℤ cash_of a ts cash
  unfolding collect
  collect_balance_from a [] cash bal tot e =
      let p = some-injective _ _ e in sym (ap (λ o. balance_of a o.0) p) ∙ omega int_laws
  collect_balance_from a (t ∷ ts) [] bal tot e = elim (Bool-cases (text_beq (key t) proxy)) [
    | inl own ↦
        collect_balance_from a ts [] bal tot (rw (own, collect) at e)
        ∙ ap (λ c. balance_of a bal +ℤ c) (cash_of-nil a ts)
    | inr other ↦ cc (rw (other, collect) at e)
  ]
  collect_balance_from a (t ∷ ts) (c ∷ cash) bal tot e =
      elim (Bool-cases (text_beq (key t) proxy)) [
        | inl own ↦ rw own (
            omega (
              int_laws,
              parts_of_eq (collect_balance_from a ts cash bal tot (rw (own, collect) at e)),
            ))
        | inr other ↦ rw other (
            omega (
              int_laws,
              parts_of_eq (balance_of-add_cash (key t) a c bal),
              parts_of_eq (
                  collect_balance_from a ts cash (add_cash (key t) c bal) (tot +ℤ c)
                    (rw (other, collect) at e)),
            ))
      ]

  -- If the loop ends without a panic, the balance of every owner is the sum of the cash of the
  -- owner's accounts, those of the manager left out.
  pub collect_balance :
      (a : Text) (ts : List Address) (cash : List ℤ) {bal : Dict Text ℤ} {tot : ℤ}
      → collect key proxy ts cash [] (pos 0) ≡ some (bal, tot)
      → balance_of a bal ≡ cash_of a ts cash
  collect_balance a ts cash e = collect_balance_from a ts cash [] (pos 0) e ∙ omega int_laws

  -- The cash of all accounts but the manager's own.
  abbrev pub cash_sum : List Address → List ℤ → ℤ
  cash_sum (t ∷ ts) (c ∷ cash) = (if text_beq (key t) proxy then pos 0 else c) +ℤ cash_sum ts cash
  cash_sum [] cash = pos 0
  cash_sum (t ∷ ts) [] = pos 0

  cash_sum-nil : (ts : List Address) → cash_sum ts [] ≡ pos 0
  cash_sum-nil [] = refl
  cash_sum-nil (t ∷ ts) = refl

  -- If the loop ends without a panic, the total grows by the cash of the accounts, those of the
  -- manager left out.
  pub collect_tot :
      (ts : List Address) (cash : List ℤ) (bal : Dict Text ℤ) (tot : ℤ) {bal' : Dict Text ℤ}
      {tot' : ℤ}
      → collect key proxy ts cash bal tot ≡ some (bal', tot')
      → tot' ≡ tot +ℤ cash_sum ts cash
  unfolding collect
  collect_tot [] cash bal tot e = sym (ap (λ o. o.1) (some-injective _ _ e)) ∙ omega int_laws
  collect_tot (t ∷ ts) [] bal tot e = elim (Bool-cases (text_beq (key t) proxy)) [
    | inl own ↦
        collect_tot ts [] bal tot (rw (own, collect) at e) ∙ ap (λ c. tot +ℤ c) (cash_sum-nil ts)
    | inr other ↦ cc (rw (other, collect) at e)
  ]
  collect_tot (t ∷ ts) (c ∷ cash) bal tot e = elim (Bool-cases (text_beq (key t) proxy)) [
    | inl own ↦
        rw own
          (omega (int_laws, parts_of_eq (collect_tot ts cash bal tot (rw (own, collect) at e))))
    | inr other ↦ rw other (
        omega (
          int_laws,
          parts_of_eq
              (collect_tot ts cash (add_cash (key t) c bal) (tot +ℤ c) (rw (other, collect) at e)),
        ))
  ]
