-- ===== src/Utils/TokenBucket/Wait.antt =====
-- When the wait for a token ends.
use mathlib.Core.Path.{subst}
use d8x_etherfi.Base.{
  ℕ, zero, suc, ◌+◌, ◌^◌, ◌≤◌, ◌<◌, ◌≡◌, true, false, arith, inl, inr, Bool-cases, some,
}
use d8x_etherfi.Base.Int.{pos, pos_part, ltb_ℤ}
use d8x_etherfi.Utils.TokenBucket.{Float, TokenBucket, take_token, tokens_to_add, wait_for_token}
use d8x_etherfi.Utils.TokenBucket.Bounds.{IsValid, IsBounded, refill-cases, filled, not_positive}
use native.Mathlib.Decide.{dec_lt}

module _ {F : Type 0} (float : Float F) (per_second : ℕ) where
  -- A bucket with room for a token refuses one only if it has none and the refill brought none; it is
  -- then as before.
  pub take_token-refused :
      (now : ℕ) (tb : TokenBucket F)
      → now < 2 ^ 63
      → IsBounded float tb.refill_rate per_second
      → IsValid tb
      → 0 < pos_part tb.capacity
      → tb.last_refill ≤ now
      → (take_token float now tb).0 ≡ false
      → ((take_token float now tb).1 ≡ tb)
        × (pos_part tb.tokens ≡ 0)
        × (pos_part (tokens_to_add float tb.refill_rate now tb.last_refill) ≡ 0)
  unfolding take_token
  take_token-refused now tb soon b v room h refused =
      elim (refill-cases float per_second now soon tb b v h) [
        | inl (nothing, e) ↦ elim (Bool-cases (ltb_ℤ (pos 0) tb.tokens)) [
          | inl q ↦ cc (rw (take_token, e, q) at refused)
          | inr q ↦ (rw (take_token, e, q), not_positive tb.tokens q, nothing)
        ]
        | inr (more, e) ↦
            let q : ltb_ℤ (pos 0) (filled float per_second now soon tb).tokens ≡ true =
              ground arith in
            cc (rw (take_token, e, q) at refused)
      ]

  -- On a valid bucket with a capacity of at least one and a bounded rate, and a clock that never
  -- shows a time before the last refill: if some reading among the first `fuel` brings a token,
  -- the wait ends with one.
  pub wait_for_token_ends :
      (clock : ℕ → ℕ) (fuel k n : ℕ) (tb : TokenBucket F)
      → ((i : ℕ) → tb.last_refill ≤ clock i)
      → ((i : ℕ) → clock i < 2 ^ 63)
      → IsBounded float tb.refill_rate per_second
      → IsValid tb
      → 0 < pos_part tb.capacity
      → k ≤ n
      → n < k + fuel
      → 0 < pos_part (tokens_to_add float tb.refill_rate (clock n) tb.last_refill)
      → (out : ℕ × TokenBucket F) × (wait_for_token float clock fuel k tb ≡ some out)
  unfolding wait_for_token
  wait_for_token_ends clock zero k n tb rising soon b v room from enough brings =
      absurd (omega arith)
  wait_for_token_ends clock (suc fuel) k n tb rising soon b v room from enough brings =
      elim (Bool-cases (take_token float (clock k) tb).0) [
        | inl got ↦ ((k + 1, (take_token float (clock k) tb).1), rw (wait_for_token, got))
        | inr refused ↦
            let (same, _, nothing) =
              take_token-refused (clock k) tb (soon k) b v room (rising k) refused in
            let rest = wait_for_token_ends clock fuel (k + 1) n tb rising soon b v room in
            elim (dec_lt k n) [
              | yes before ↦
                  let (out, e) = rest (omega arith) (omega arith) brings in
                  (out, rw (wait_for_token, refused, same) e)
              | no now ↦
                  let here : n ≡ k = omega arith in
                  absurd (
                    omega (
                      arith,
                      subst
                          (λ i.
                            0
                            < pos_part
                                (tokens_to_add float tb.refill_rate (clock i) tb.last_refill))
                          here brings,
                    ))
            ]
      ]
