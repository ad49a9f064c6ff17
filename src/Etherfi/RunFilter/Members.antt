-- ===== src/Etherfi/RunFilter/Members.antt =====
-- Which logs are in a range of blocks, and what members logs have in common.
use d8x_etherfi.Base.{
  ℕ, ◌≡◌, sym, ap, inl, inr, List, [], ◌∷◌, Option, Text, true, All, All-weaken, Bool-cases,
  if◌then◌else◌,
}
use mathlib.Core.Path.{subst}
use mathlib.Core.Logic.Or
use mathlib.Core.List.{Mem, Mem-prop, mem-cons, mem-cons_self, mem-cons_of_mem, not-mem-nil}
use d8x_etherfi.Base.Int.{eqb_ℤ}
use d8x_etherfi.Filterer.{Log, Delegate, Transfer, transfer_log, delegate_log}
use d8x_etherfi.Filterer.Window.{within, in_range}
use d8x_etherfi.Etherfi.Store.{delegate_idx_strategy}

pub All-Mem : {A : Type 0} (xs : List A) → All (λ x. Mem x xs) xs
All-Mem [] = tt
All-Mem (x ∷ xs) = (mem-cons_self, All-weaken (λ y m. mem-cons_of_mem x m) xs (All-Mem xs))

module _ {L : Type 0} (block_of : L → ℕ) (a : ℕ) (b : Option ℕ) where
  pub within-in_range :
      (xs : List L) → All (λ x. in_range block_of a b x ≡ true) (within block_of a b xs)
  within-in_range [] = tt
  within-in_range (x ∷ xs) = elim (Bool-cases (in_range block_of a b x)) [
    | inl q ↦ rw q (q, within-in_range xs)
    | inr q ↦ rw q (within-in_range xs)
  ]

  pub mem-within :
      (xs : List L) (l : L)
      → Mem l xs
      → in_range block_of a b l ≡ true
      → Mem l (within block_of a b xs)
  mem-within [] l m q = absurd (not-mem-nil m)
  mem-within (x ∷ xs) l m q = elim (Bool-cases (in_range block_of a b x)) [
    | inl p ↦ rw p (
        Or.elim Mem-prop (mem-cons.0 m)
          (λ e. subst (λ y. Mem y (x ∷ within block_of a b xs)) (sym e) mem-cons_self)
          (λ k. mem-cons_of_mem x (mem-within xs l k q)))
    | inr p ↦ rw p (
        Or.elim Mem-prop (mem-cons.0 m)
          (λ e.
            let q' : in_range block_of a b x ≡ true =
              subst (λ y. in_range block_of a b y ≡ true) e q in
            cc)
          (λ k. mem-within xs l k q))
  ]

-- Who received a token in these logs.
abbrev pub receivers : List Log → List Text
receivers [] = []
receivers (transfer_log t ∷ logs) = t.to ∷ receivers logs
receivers (delegate_log d ∷ logs) = receivers logs

-- The wallets of the strategy in these logs, with their delegates.
abbrev pub strategies : List Log → List (Text × Text)
strategies [] = []
strategies (transfer_log t ∷ logs) = strategies logs
strategies (delegate_log d ∷ logs) =
    if eqb_ℤ d.index delegate_idx_strategy
    then (d.addr, d.delegate) ∷ strategies logs
    else strategies logs

transfer_log_injective : (t u : Transfer) → transfer_log t ≡ transfer_log u → t ≡ u
transfer_log_injective t u e =
    ap (λ l. elim l as (λ _. Transfer) [ transfer_log x ↦ x | delegate_log _ ↦ t ]) e

delegate_log_injective : (d c : Delegate) → delegate_log d ≡ delegate_log c → d ≡ c
delegate_log_injective d c e =
    ap (λ l. elim l as (λ _. Delegate) [ delegate_log x ↦ x | transfer_log _ ↦ d ]) e

mem-receivers :
    (t : Transfer) (logs : List Log) → Mem (transfer_log t) logs → Mem t.to (receivers logs)
mem-receivers t [] m = absurd (not-mem-nil m)
mem-receivers t (transfer_log u ∷ logs) m =
    Or.elim Mem-prop (mem-cons.0 m)
      (λ e.
        subst (λ (x : Transfer). Mem x.to (u.to ∷ receivers logs))
          (sym (transfer_log_injective t u e)) mem-cons_self)
      (λ k. mem-cons_of_mem u.to (mem-receivers t logs k))
mem-receivers t (delegate_log d ∷ logs) m =
    Or.elim Mem-prop (mem-cons.0 m) (λ e. cc) (λ k. mem-receivers t logs k)

mem-strategies :
    (d : Delegate) (logs : List Log)
    → eqb_ℤ d.index delegate_idx_strategy ≡ true
    → Mem (delegate_log d) logs
    → Mem (d.addr, d.delegate) (strategies logs)
mem-strategies d [] q m = absurd (not-mem-nil m)
mem-strategies d (transfer_log t ∷ logs) q m =
    Or.elim Mem-prop (mem-cons.0 m) (λ e. cc) (λ k. mem-strategies d logs q k)
mem-strategies d (delegate_log c ∷ logs) q m =
    elim (Bool-cases (eqb_ℤ c.index delegate_idx_strategy)) [
      | inl p ↦ rw p (
          Or.elim Mem-prop (mem-cons.0 m)
            (λ e.
              subst
                (λ (x : Delegate).
                  Mem (x.addr, x.delegate) ((c.addr, c.delegate) ∷ strategies logs))
                (sym (delegate_log_injective d c e)) mem-cons_self)
            (λ k. mem-cons_of_mem (c.addr, c.delegate) (mem-strategies d logs q k)))
      | inr p ↦ rw p (
          Or.elim Mem-prop (mem-cons.0 m)
            (λ e.
              let q' : eqb_ℤ c.index delegate_idx_strategy ≡ true =
                subst (λ (x : Delegate). eqb_ℤ x.index delegate_idx_strategy ≡ true)
                  (delegate_log_injective d c e) q in
              cc)
            (λ k. mem-strategies d logs q k))
    ]

-- Logs that are all among others have their receivers, and their wallets, among those of the others.
pub receivers-Mem :
    (logs others : List Log) (a : Text)
    → All (λ l. Mem l others) logs
    → Mem a (receivers logs)
    → Mem a (receivers others)
receivers-Mem [] others a h m = absurd (not-mem-nil m)
receivers-Mem (transfer_log t ∷ logs) others a (h, hs) m =
    Or.elim Mem-prop (mem-cons.0 m)
      (λ e. subst (λ b. Mem b (receivers others)) (sym e) (mem-receivers t others h))
      (λ k. receivers-Mem logs others a hs k)
receivers-Mem (delegate_log d ∷ logs) others a (h, hs) m = receivers-Mem logs others a hs m

pub strategies-Mem :
    (logs others : List Log) (p : Text × Text)
    → All (λ l. Mem l others) logs
    → Mem p (strategies logs)
    → Mem p (strategies others)
strategies-Mem [] others p h m = absurd (not-mem-nil m)
strategies-Mem (transfer_log t ∷ logs) others p (h, hs) m = strategies-Mem logs others p hs m
strategies-Mem (delegate_log d ∷ logs) others p (h, hs) m =
    elim (Bool-cases (eqb_ℤ d.index delegate_idx_strategy)) [
      | inl q ↦
          Or.elim Mem-prop (mem-cons.0 (rw q at m))
            (λ e. subst (λ x. Mem x (strategies others)) (sym e) (mem-strategies d others q h))
            (λ k. strategies-Mem logs others p hs k)
      | inr q ↦ strategies-Mem logs others p hs (rw q at m)
    ]
