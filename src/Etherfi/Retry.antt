-- ===== src/Etherfi/Retry.antt =====
-- `retryQuery` of internal/etherfi/etherfi.go: four trials, each on the next node, and "no contract
-- code" taken for the answer 0.
use mathlib.Core.Path.{subst}
use d8x_etherfi.Base.{
  string_eq, true, ℕ, zero, suc, ◌≡◌, inl, inr, Result, ok, err, Error, Result-cases, List, [], ◌∷◌,
  if◌then◌else◌, Bool-cases,
}
use d8x_etherfi.Base.Int.{ℤ, pos}
use d8x_etherfi.Chain.{Pool}
use d8x_etherfi.Etherfi.Call.{M}
use text.Mathlib.Text.{◌==◌ as str_eq}

abbrev pub no_contract_code : Error
no_contract_code = "no contract code at given address"

module _ {W Client : Type 0} (pool : Pool W Client) where
  -- One round of the loop, up to the test of the error.
  abbrev pub attempt : (ℕ → Client → M W ℤ) → ℕ → M W ℤ
  attempt query block w =
      let (rpc, w') = pool.get_next_rpc w in query block rpc (pool.wait_for_token rpc w')

  -- The rounds: `n` more may follow this one.
  unfoldable pub retry_loop : ℕ → (ℕ → Client → M W ℤ) → ℕ → M W ℤ
  retry_loop zero query block w =
      let (r, w') = attempt query block w in
      elim r [
        | ok v ↦ (ok v, w')
        | err e ↦ if str_eq e no_contract_code then (ok (pos 0), w') else (err e, w')
      ]
  retry_loop (suc n) query block w =
      let (r, w') = attempt query block w in
      elim r [
        | ok v ↦ (ok v, w')
        | err e ↦
            let rest = retry_loop n query block w' in
            if str_eq e no_contract_code then (ok (pos 0), w') else rest
      ]

  unfoldable pub retry_query : (ℕ → Client → M W ℤ) → ℕ → M W ℤ
  retry_query query block = retry_loop 3 query block

-- What a list of outcomes amounts to: the first that is a value or the missing contract decides, and
-- if none does, the last error stands.
abbrev pub decide_from : Result ℤ → List (Result ℤ) → Result ℤ
decide_from last [] = last
decide_from last (ok v ∷ rs) = ok v
decide_from last (err e ∷ rs) =
    if str_eq e no_contract_code then ok (pos 0) else decide_from (err e) rs

module _ {W Client : Type 0} (pool : Pool W Client) (query : ℕ → Client → M W ℤ) (block : ℕ) where
  -- The outcomes of the next attempts, whatever they are.
  abbrev pub outcomes : ℕ → W → List (Result ℤ)
  outcomes zero w = []
  outcomes (suc n) w = (attempt pool query block w).0 ∷ outcomes n (attempt pool query block w).1

  retry_loop-decide :
      (n : ℕ) (w : W) (last : Result ℤ)
      → (retry_loop pool n query block w).0 ≡ decide_from last (outcomes (suc n) w)
  unfolding retry_loop
  retry_loop-decide zero w last = elim (Result-cases (attempt pool query block w).0) [
    | inl (v, h) ↦ rw (h, retry_loop)
    | inr (e, h) ↦ elim (Bool-cases (str_eq e no_contract_code)) [
      | inl q ↦ rw (h, retry_loop, q)
      | inr q ↦ rw (h, retry_loop, q)
    ]
  ]
  retry_loop-decide (suc n) w last = elim (Result-cases (attempt pool query block w).0) [
    | inl (v, h) ↦ rw (h, retry_loop)
    | inr (e, h) ↦ elim (Bool-cases (str_eq e no_contract_code)) [
      | inl q ↦ rw (h, retry_loop, q)
      | inr q ↦ rw (h, retry_loop, q) (retry_loop-decide n (attempt pool query block w).1 (err e))
    ]
  ]

  -- The answer is decided by the first four attempts alone: by the first of them that is a value
  -- or the missing contract, which counts as 0; and if there is none, it is the error of the
  -- fourth.
  pub retry_query-decide :
      (w : W)
      → (retry_query pool query block w).0 ≡ decide_from (err no_contract_code) (outcomes 4 w)
  unfolding retry_query
  retry_query-decide w = retry_loop-decide 3 w (err no_contract_code)

  missing_only :
      (e : Error) (P : Result ℤ → Type 0)
      → str_eq e no_contract_code ≡ true
      → P (err e)
      → P (err no_contract_code)
  missing_only e P q = subst (λ f. P (err f)) ((string_eq.beq_iff e no_contract_code).0 q)

  module _ (P : Result ℤ → Type 0) (each : (v : W) → P (attempt pool query block v).0)
      (missing : P (err no_contract_code) → P (ok (pos 0))) where
    retry_loop-all : (n : ℕ) (w : W) → P (retry_loop pool n query block w).0
    unfolding retry_loop
    retry_loop-all zero w = elim (Result-cases (attempt pool query block w).0) [
      | inl (v, h) ↦ rw (h, retry_loop) (subst P h (each w))
      | inr (e, h) ↦ elim (Bool-cases (str_eq e no_contract_code)) [
        | inl q ↦ rw (h, retry_loop, q) (missing (missing_only e P q (subst P h (each w))))
        | inr q ↦ rw (h, retry_loop, q) (subst P h (each w))
      ]
    ]
    retry_loop-all (suc n) w = elim (Result-cases (attempt pool query block w).0) [
      | inl (v, h) ↦ rw (h, retry_loop) (subst P h (each w))
      | inr (e, h) ↦ elim (Bool-cases (str_eq e no_contract_code)) [
        | inl q ↦ rw (h, retry_loop, q) (missing (missing_only e P q (subst P h (each w))))
        | inr q ↦ rw (h, retry_loop, q) (retry_loop-all n (attempt pool query block w).1)
      ]
    ]

  -- What holds of every attempt, and of 0 if it holds of a missing contract, holds of the answer.
  pub retry_query-all :
      (w : W) (P : Result ℤ → Type 0)
      → ((v : W) → P (attempt pool query block v).0)
      → (P (err no_contract_code) → P (ok (pos 0)))
      → P (retry_query pool query block w).0
  unfolding retry_query
  retry_query-all w P each missing = retry_loop-all P each missing 3 w
