-- ===== src/Utils/TokenBucket/Bounds.antt =====
-- The bucket holds from 0 tokens up to its capacity.
use native.Mathlib.Nat.{mul-le-mul}
use d8x_etherfi.Base.{
  ℕ, ◌+◌, ◌*◌, ◌^◌, ◌≤◌, ◌<◌, ◌≡◌, true, false, arith, ◌⊎◌, inl, inr, Bool-cases, ap, ◌∙◌,
}
use d8x_etherfi.Base.Int.{ℤ, pos, pos_part, neg_part, ◌+ℤ◌, ◌-ℤ◌, ltb_ℤ, int64, int64-pos, int_laws}
use d8x_etherfi.Utils.TokenBucket.{Float, TokenBucket, tokens_to_add, refill, take_token, min_ℤ}

-- The tokens and the capacity, which a 64-bit integer leaves room above.
pub record IsValid {F : Type 0} (tb : TokenBucket F) : Type 0 where
  pub nonneg : neg_part tb.tokens ≡ 0
  pub capacity_nonneg : neg_part tb.capacity ≡ 0
  pub within : pos_part tb.tokens ≤ pos_part tb.capacity
  pub room : pos_part tb.capacity < 2 ^ 62

-- The float expression does not exceed the exact `rate * elapsed / 10^9`, for up to 2^20 tokens a
-- second, and a time that fits a `time.Duration`.
pub record IsBounded {F : Type 0} (float : Float F) (rate : F) (per_second : ℕ) : Type 0 where
  pub slow : per_second ≤ 2 ^ 20
  pub at_most :
      (now last : ℕ)
      → last ≤ now
      → pos_part (tokens_to_add float rate now last) * 10 ^ 9 + per_second * last ≤ per_second * now

int64-add :
    (a b : ℤ)
    → neg_part a ≡ 0
    → neg_part b ≡ 0
    → pos_part a + pos_part b < 2 ^ 63
    → int64 (a +ℤ b) ≡ pos (pos_part a + pos_part b)
int64-add a b p q h =
    let sum : a +ℤ b ≡ pos (pos_part a + pos_part b) = omega int_laws in
    ap int64 sum ∙ int64-pos (pos_part a + pos_part b) h

pub not_positive : (a : ℤ) → ltb_ℤ (pos 0) a ≡ false → pos_part a ≡ 0
not_positive a h = ground arith

positive : (a : ℤ) → ltb_ℤ (pos 0) a ≡ true → (neg_part a ≡ 0) × (0 < pos_part a)
positive a h = ground arith

module _ {F : Type 0} (float : Float F) (per_second : ℕ) (now : ℕ) (soon : now < 2 ^ 63)
    (tb : TokenBucket F) where
  abbrev pub added : ℤ
  added = tokens_to_add float tb.refill_rate now tb.last_refill

  -- A bucket after a refill that brought tokens.
  abbrev pub filled : TokenBucket F
  filled = record tb {
    tokens = min_ℤ tb.capacity (pos (pos_part tb.tokens + pos_part added));
    last_refill = now;
  }

  -- A refill brings nothing and leaves the bucket alone, or it brings tokens up to the capacity: the
  -- sum does not overflow.
  pub refill-cases :
      IsBounded float tb.refill_rate per_second
      → IsValid tb
      → tb.last_refill ≤ now
      → ((pos_part added ≡ 0) × (refill float now tb ≡ tb))
        ⊎ ((0 < pos_part added) × (refill float now tb ≡ filled))
  unfolding refill
  refill-cases b v h = elim (Bool-cases (ltb_ℤ (pos 0) added)) [
    | inr q ↦ inl (not_positive added q, rw (refill, q))
    | inl q ↦
        let (plus, more) = positive added q in
        let small : per_second * now ≤ 2 ^ 20 * 2 ^ 63 =
          mul-le-mul {m₂ = 2 ^ 63} b.slow (omega arith) in
        let fits : pos_part tb.tokens + pos_part added < 2 ^ 63 =
          omega (arith, b.at_most now tb.last_refill h, v.within, v.room) in
        inr (more, rw (refill, q, int64-add tb.tokens added v.nonneg plus fits))
  ]

  filled-IsValid : IsValid tb → IsValid filled
  filled-IsValid v = ground arith

  pub refill-IsValid :
      IsBounded float tb.refill_rate per_second
      → IsValid tb
      → tb.last_refill ≤ now
      → IsValid (refill float now tb)
  refill-IsValid b v h = elim (refill-cases b v h) [
    | inl (_, e) ↦ rw e v
    | inr (_, e) ↦ rw e (filled-IsValid v)
  ]

spent-IsValid :
    {F : Type 0} (tb : TokenBucket F)
    → IsValid tb
    → ltb_ℤ (pos 0) tb.tokens ≡ true
    → IsValid (record tb { tokens = tb.tokens -ℤ pos 1 })
unfolding ◌-ℤ◌
spent-IsValid tb v h = ground arith

module _ {F : Type 0} (float : Float F) (per_second : ℕ) (now : ℕ) (soon : now < 2 ^ 63)
    (tb : TokenBucket F) where
  -- A take at a time not before the last refill, with the rate bounded, keeps a valid bucket
  -- valid: its tokens stay from 0 up to its capacity.
  pub take_token-IsValid :
      IsBounded float tb.refill_rate per_second
      → IsValid tb
      → tb.last_refill ≤ now
      → IsValid (take_token float now tb).1
  unfolding take_token
  take_token-IsValid b v h =
      let v' = refill-IsValid float per_second now soon tb b v h in
      elim (Bool-cases (ltb_ℤ (pos 0) (refill float now tb).tokens)) [
        | inl q ↦ rw (take_token, q) (spent-IsValid (refill float now tb) v' q)
        | inr q ↦ rw (take_token, q) v'
      ]
