-- ===== src/Rounds/Trials.antt =====
-- `for trial := 0; trial <= n; trial++ { …; if err == nil { break } }`: of internal/etherfi,
-- QueryLpBalances, queryAvailCash and queryActiveAddr have this loop with n = 2.
use mathlib.Core.Path.{subst}
use d8x_etherfi.Base.{
  ℕ, zero, suc, ◌≡◌, inl, inr, Result, ok, err, Result-cases, List, [], ◌∷◌, ◌∙◌,
}

module _ {ℓ κ} {W : Type ℓ} {A : Type κ} where
  unfoldable pub try_times : ℕ → (W → Result A × W) → W → Result A × W
  try_times zero attempt w = attempt w
  try_times (suc n) attempt w =
      let (r, w') = attempt w in elim r [ ok a ↦ (ok a, w') | err e ↦ try_times n attempt w' ]

  -- The outcomes of the trials if none of them ends the loop.
  abbrev outcomes : ℕ → (W → Result A × W) → W → List (Result A)
  outcomes zero attempt w = (attempt w).0 ∷ []
  outcomes (suc n) attempt w = (attempt w).0 ∷ outcomes n attempt (attempt w).1

-- The first success of a list of outcomes, or else the last failure.
abbrev first_ok {κ} : {A : Type κ} → Result A → List (Result A) → Result A
first_ok last [] = last
first_ok last (ok a ∷ rs) = ok a
first_ok last (err e ∷ rs) = first_ok (err e) rs

module _ {ℓ κ} {W : Type ℓ} {A : Type κ} where
  try_times_from :
      (n : ℕ) (attempt : W → Result A × W) (w : W) (last : Result A)
      → (try_times n attempt w).0 ≡ first_ok last (outcomes n attempt w)
  unfolding try_times
  try_times_from zero attempt w last = elim (Result-cases (attempt w).0) [
    | inl (a, h) ↦ rw h
    | inr (e, h) ↦ rw h
  ]
  try_times_from (suc n) attempt w last = elim (Result-cases (attempt w).0) [
    | inl (a, h) ↦ rw (h, try_times)
    | inr (e, h) ↦ rw (h, try_times) (try_times_from n attempt (attempt w).1 (err e))
  ]

  -- The loop returns its first success, and the last failure if there is none.
  try_times-first_ok :
      (n : ℕ) (attempt : W → Result A × W) (w : W)
      → (try_times n attempt w).0 ≡ first_ok (attempt w).0 (outcomes n attempt w)
  try_times-first_ok n attempt w = try_times_from n attempt w (attempt w).0

  -- What every success of the attempt satisfies, every success of the loop does.
  pub try_times-ok :
      (n : ℕ) (attempt : W → Result A × W) (w : W) (P : A → Type κ)
      → ((v : W) (a : A) → (attempt v).0 ≡ ok a → P a)
      → (a : A) → (try_times n attempt w).0 ≡ ok a
      → P a
  unfolding try_times
  try_times-ok zero attempt w P h a e = h w a e
  try_times-ok (suc n) attempt w P h a e = elim (Result-cases (attempt w).0) [
    | inl (b, q) ↦ h w a (q ∙ rw (q, try_times) at e)
    | inr (f, q) ↦ try_times-ok n attempt (attempt w).1 P h a (rw (q, try_times) at e)
  ]

  -- What every outcome of the attempt satisfies, the outcome of the loop does.
  pub try_times-all :
      (n : ℕ) (attempt : W → Result A × W) (w : W) (P : Result A → Type κ)
      → ((v : W) → P (attempt v).0)
      → P (try_times n attempt w).0
  unfolding try_times
  try_times-all zero attempt w P h = h w
  try_times-all (suc n) attempt w P h = elim (Result-cases (attempt w).0) [
    | inl (a, q) ↦ rw (q, try_times) (subst P q (h w))
    | inr (e, q) ↦ rw (q, try_times) (try_times-all n attempt (attempt w).1 P h)
  ]
