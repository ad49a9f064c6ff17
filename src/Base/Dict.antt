-- ===== src/Base/Dict.antt =====
-- A Go map as an association list. A key stands where it was first written; the order of the list
-- has no meaning, since a `range` over a map may come in any order.
use d8x_etherfi.Base.Defs.{Eq, if◌then◌else◌, Option-cases, Bool-cases}
use d8x_etherfi.Base.Int.{ℤ, pos, ◌+ℤ◌, int_laws}
use mathlib.Core.Path.{◌≡◌, sym, ◌∙◌, subst}
use mathlib.Core.Logic.{◌≢◌, inl, inr}
use mathlib.Core.Bool.{false≢true}
use mathlib.Core.Option.{Option, none, some}
use mathlib.Core.List.{List, [], ◌∷◌}
use native.Mathlib.Omega.{arith}

abbrev pub Dict {ℓ κ} : Type ℓ → Type κ → Type (ℓ ⊔ κ)
Dict K V = List (K × V)

module _ {ℓ κ} {K : Type ℓ} {V : Type κ} ⦃e : Eq K⦄ where
  abbrev pub lookup : K → Dict K V → Option V
  lookup k [] = none
  lookup k ((j, v) ∷ d) = if e.beq j k then some v else lookup k d

  abbrev pub insert : K → V → Dict K V → Dict K V
  insert k v [] = (k, v) ∷ []
  insert k v ((j, w) ∷ d) = if e.beq j k then (j, v) ∷ d else (j, w) ∷ insert k v d

module _ {ℓ κ} {K : Type ℓ} {V : Type κ} ⦃e : Eq K⦄ where
  pub lookup-insert_self : (k : K) (v : V) (d : Dict K V) → lookup k (insert k v d) ≡ some v
  lookup-insert_self k v [] = ground (arith, e.beq_iff k k)
  lookup-insert_self k v ((j, w) ∷ d) = ground (arith, e.beq_iff j k, lookup-insert_self k v d)

  pub lookup-insert_ne :
      (j k : K) (v : V) (d : Dict K V) → k ≢ j → lookup j (insert k v d) ≡ lookup j d
  lookup-insert_ne j k v [] h = ground (arith, e.beq_iff k j)
  lookup-insert_ne j k v ((i, w) ∷ d) h =
      ground (arith, e.beq_iff i k, e.beq_iff i j, lookup-insert_ne j k v d h)

module _ {ℓ} {K : Type ℓ} ⦃e : Eq K⦄ where
  -- The balance that a map of balances gives to a key, 0 if it has none.
  abbrev pub balance_of : K → Dict K ℤ → ℤ
  balance_of k d = elim (lookup k d) [ none ↦ pos 0 | some v ↦ v ]

-- The sum of the values.
abbrev pub total {ℓ} : {K : Type ℓ} → Dict K ℤ → ℤ
total [] = pos 0
total ((k, v) ∷ d) = v +ℤ total d

module _ {ℓ} {K : Type ℓ} ⦃e : Eq K⦄ where
  -- A write moves the sum by the change at its key.
  pub total-insert :
      (k : K) (v : ℤ) (d : Dict K ℤ) → total (insert k v d) +ℤ balance_of k d ≡ total d +ℤ v
  total-insert k v [] = omega int_laws
  total-insert k v ((j, w) ∷ d) = grind (int_laws, total-insert k v d)

  pub balance_of-insert :
      (j k : K) (v : ℤ) (d : Dict K ℤ)
      → balance_of j (insert k v d) ≡ (if e.beq k j then v else balance_of j d)
  balance_of-insert j k v d = elim (Bool-cases (e.beq k j)) [
    | inl same ↦
        let here : lookup j (insert k v d) ≡ some v =
          subst (λ x. lookup x (insert k v d) ≡ some v) ((e.beq_iff k j).0 same)
            (lookup-insert_self k v d) in
        rw (same, balance_of, here)
    | inr other ↦ rw (
      other,
      balance_of,
      lookup-insert_ne j k v d (λ p. false≢true (sym other ∙ (e.beq_iff k j).1 p)),
    )
  ]

  -- `if v, exists := d[k]; exists { v + c } else { c }` adds to the balance either way.
  pub added_balance :
      (k : K) (c : ℤ) (d : Dict K ℤ)
      → (elim (lookup k d) [ none ↦ c | some v ↦ v +ℤ c ]) ≡ balance_of k d +ℤ c
  added_balance k c d = elim (Option-cases (lookup k d)) [
    | inl p ↦ rw (p, balance_of) (omega int_laws)
    | inr (v, p) ↦ rw (p, balance_of)
  ]
