-- ===== src/Etherfi/Store/Sets.antt =====
-- `SELECT DISTINCT` as a set: the rows that it returns, and that each comes once.
use d8x_etherfi.Base.{
  ◌≡◌, ◌≢◌, sym, ◌↔◌, inl, inr, Bool, true, false, List, [], ◌∷◌, All, Bool-cases,
}
use mathlib.Core.Path.{subst}
use mathlib.Core.Logic.Or
use mathlib.Core.List.{Mem, Mem-prop, mem-cons, mem-cons_self, mem-cons_of_mem}
use d8x_etherfi.Etherfi.Store.{occurs, distinct}

module _ {A : Type 0} where
  -- No two entries are equal.
  abbrev pub Apart : List A → Type 0
  Apart [] = Unit {0}
  Apart (a ∷ xs) = All (λ b. a ≢ b) xs × Apart xs

module _ {A : Type 0} (same : A → A → Bool)
    (same_iff : (a b : A) → (same a b ≡ true) ↔ (a ≡ b)) where
  occurs-mem : (a : A) (xs : List A) → occurs same a xs ≡ true → Mem a xs
  occurs-mem a [] h = cc
  occurs-mem a (x ∷ xs) h = elim (Bool-cases (same a x)) [
    | inl q ↦ subst (λ b. Mem b (x ∷ xs)) (sym ((same_iff a x).0 q)) mem-cons_self
    | inr q ↦ mem-cons_of_mem x (occurs-mem a xs (rw q at h))
  ]

  occurs-apart : (a : A) (xs : List A) → occurs same a xs ≡ false → All (λ b. a ≢ b) xs
  occurs-apart a [] h = tt
  occurs-apart a (x ∷ xs) h = elim (Bool-cases (same a x)) [
    | inl q ↦ cc (rw q at h)
    | inr q ↦ ((λ e. cc ((same_iff a x).1 e)), occurs-apart a xs (rw q at h))
  ]

  distinct-All : (P : A → Type 0) (xs : List A) → All P xs → All P (distinct same xs)
  distinct-All P [] h = tt
  distinct-All P (x ∷ xs) (h, hs) = elim (Bool-cases (occurs same x xs)) [
    | inl q ↦ rw q (distinct-All P xs hs)
    | inr q ↦ rw q (h, distinct-All P xs hs)
  ]

  pub distinct-Apart : (xs : List A) → Apart (distinct same xs)
  distinct-Apart [] = tt
  distinct-Apart (x ∷ xs) = elim (Bool-cases (occurs same x xs)) [
    | inl q ↦ rw q (distinct-Apart xs)
    | inr q ↦ rw q (distinct-All (λ b. x ≢ b) xs (occurs-apart x xs q), distinct-Apart xs)
  ]

  of_distinct : (a : A) (xs : List A) → Mem a (distinct same xs) → Mem a xs
  of_distinct a [] m = m
  of_distinct a (x ∷ xs) m = elim (Bool-cases (occurs same x xs)) [
    | inl q ↦ mem-cons_of_mem x (of_distinct a xs (rw q at m))
    | inr q ↦
        let m' : Mem a (x ∷ distinct same xs) = rw q at m in
        Or.elim Mem-prop (mem-cons.0 m') (λ e. subst (λ b. Mem b (x ∷ xs)) (sym e) mem-cons_self)
          (λ k. mem-cons_of_mem x (of_distinct a xs k))
  ]

  to_distinct : (a : A) (xs : List A) → Mem a xs → Mem a (distinct same xs)
  to_distinct a [] m = m
  to_distinct a (x ∷ xs) m = elim (Bool-cases (occurs same x xs)) [
    | inl q ↦ rw q (
        Or.elim Mem-prop (mem-cons.0 m)
          (λ e. to_distinct a xs (subst (λ b. Mem b xs) (sym e) (occurs-mem x xs q)))
          (λ k. to_distinct a xs k))
    | inr q ↦ rw q (
        Or.elim Mem-prop (mem-cons.0 m)
          (λ e. subst (λ b. Mem b (x ∷ distinct same xs)) (sym e) mem-cons_self)
          (λ k. mem-cons_of_mem x (to_distinct a xs k)))
  ]

  pub mem-distinct : (a : A) (xs : List A) → Mem a (distinct same xs) ↔ Mem a xs
  mem-distinct a xs = (of_distinct a xs, to_distinct a xs)
