-- ===== src/Utils/TokenBucket.antt =====
-- internal/utils/token_bucket.go. A time is the nanoseconds of the monotonic clock, which do not
-- fall. `Take` runs under the bucket's mutex, so it is one step.
pub mod Bounds
pub mod Rate
pub mod Wait
use d8x_etherfi.Base.{ℕ, zero, suc, ◌+◌, ◌≡◌, Bool, true, false, if◌then◌else◌, Option, none, some}
use d8x_etherfi.Base.Int.{ℤ, pos, ◌+ℤ◌, ◌-ℤ◌, ltb_ℤ, int64}

-- What the bucket does with a `float64`.
pub record Float (F : Type 0) : Type 0 where
  pub of_int : ℤ → F
  pub billion : F
  pub quo : F → F → F
  pub mul : F → F → F
  pub to_int : F → ℤ

pub record TokenBucket (F : Type 0) : Type 0 where
  pub tokens : ℤ
  pub capacity : ℤ
  pub refill_rate : F
  pub last_refill : ℕ

abbrev pub min_ℤ : ℤ → ℤ → ℤ
min_ℤ a b = if ltb_ℤ b a then b else a

unfoldable pub new_token_bucket : {F : Type 0} → ℤ → F → ℕ → TokenBucket F
new_token_bucket capacity refill_rate now = record {
  tokens = capacity;
  capacity = capacity;
  refill_rate = refill_rate;
  last_refill = now;
}

module _ {F : Type 0} (float : Float F) where
  -- `int(float64(elapsed.Nanoseconds()) / 1e9 * tb.refillRate)`
  unfoldable pub tokens_to_add : F → ℕ → ℕ → ℤ
  tokens_to_add rate now last =
      float.to_int (float.mul (float.quo (float.of_int (pos now -ℤ pos last)) float.billion) rate)

  unfoldable pub refill : ℕ → TokenBucket F → TokenBucket F
  refill now tb =
      let added = tokens_to_add tb.refill_rate now tb.last_refill in
      if ltb_ℤ (pos 0) added
      then record tb { tokens = min_ℤ tb.capacity (int64 (tb.tokens +ℤ added)); last_refill = now }
      else tb

  unfoldable pub take_token : ℕ → TokenBucket F → Bool × TokenBucket F
  unfolding refill
  take_token now tb =
      let tb' = refill now tb in
      if ltb_ℤ (pos 0) tb'.tokens
      then (true, record tb' { tokens = tb'.tokens -ℤ pos 1 })
      else (false, tb')

  -- `WaitForToken`, with the clock's readings from the `k`th on: how many were made, and the bucket.
  -- `none` means that none of `fuel` tries got a token.
  unfoldable pub wait_for_token : (ℕ → ℕ) → ℕ → ℕ → TokenBucket F → Option (ℕ × TokenBucket F)
  unfolding take_token
  wait_for_token clock zero k tb = none
  wait_for_token clock (suc fuel) k tb =
      let (got, tb') = take_token (clock k) tb in
      elim got [ true ↦ some (k + 1, tb') | false ↦ wait_for_token clock fuel (k + 1) tb' ]
