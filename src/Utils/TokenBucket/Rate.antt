-- ===== src/Utils/TokenBucket/Rate.antt =====
-- The rate limit: how many tokens a bucket can grant.
use native.Mathlib.Nat.{mul-le-mul_left}
use mathlib.Core.Path.{subst}
use d8x_etherfi.Base.{
  ℕ, ◌+◌, ◌*◌, ◌^◌, ◌≤◌, ◌<◌, ◌≡◌, refl, sym, ◌∙◌, Bool, true, false, arith, inl, inr, Bool-cases,
  List, [], ◌∷◌,
}
use d8x_etherfi.Base.Int.{pos, pos_part, ◌-ℤ◌, ltb_ℤ}
use d8x_etherfi.Utils.TokenBucket.{Float, TokenBucket, refill, take_token}
use d8x_etherfi.Utils.TokenBucket.Bounds.{
  IsValid, IsBounded, refill-cases, refill-IsValid, take_token-IsValid, filled,
}

abbrev pub one_if : Bool → ℕ
one_if true = 1
one_if false = 0

-- What a step from `tb` to `tb'` at time `now` has spent: the tokens granted and kept are the tokens
-- that were there and at most `per_second` for each second between the refills.
pub record Pays {F : Type 0} (per_second now granted : ℕ) (tb tb' : TokenBucket F) : Type 0 where
  pub paid :
      (granted + pos_part tb'.tokens) * 10 ^ 9 + per_second * tb.last_refill
      ≤ pos_part tb.tokens * 10 ^ 9 + per_second * tb'.last_refill
  pub later : tb.last_refill ≤ tb'.last_refill
  pub by_now : tb'.last_refill ≤ now
  pub same_rate : tb'.refill_rate ≡ tb.refill_rate

module _ {F : Type 0} (float : Float F) (per_second : ℕ) (now : ℕ) (soon : now < 2 ^ 63)
    (tb : TokenBucket F) where
  filled-Pays :
      IsBounded float tb.refill_rate per_second
      → IsValid tb
      → tb.last_refill ≤ now
      → Pays per_second now 0 tb (filled float per_second now soon tb)
  filled-Pays b v h = record {
    paid = ground (arith, b.at_most now tb.last_refill h);
    later = h;
    by_now = omega arith;
    same_rate = refl;
  }

  refill-Pays :
      IsBounded float tb.refill_rate per_second
      → IsValid tb
      → tb.last_refill ≤ now
      → Pays per_second now 0 tb (refill float now tb)
  refill-Pays b v h = elim (refill-cases float per_second now soon tb b v h) [
    | inl (_, e) ↦
        rw e (record { paid = omega arith; later = omega arith; by_now = h; same_rate = refl })
    | inr (_, e) ↦ rw e (filled-Pays b v h)
  ]

spent-Pays :
    {F : Type 0} (per_second now : ℕ) (tb tb' : TokenBucket F)
    → Pays per_second now 0 tb tb'
    → IsValid tb'
    → ltb_ℤ (pos 0) tb'.tokens ≡ true
    → Pays per_second now 1 tb (record tb' { tokens = tb'.tokens -ℤ pos 1 })
unfolding ◌-ℤ◌
spent-Pays per_second now tb tb' p v h = record {
  paid = ground (arith, p.paid);
  later = p.later;
  by_now = p.by_now;
  same_rate = p.same_rate;
}

module _ {F : Type 0} (float : Float F) (per_second : ℕ) where
  take_token-Pays :
      (now : ℕ) (tb : TokenBucket F)
      → now < 2 ^ 63
      → IsBounded float tb.refill_rate per_second
      → IsValid tb
      → tb.last_refill ≤ now
      → Pays per_second now (one_if (take_token float now tb).0) tb (take_token float now tb).1
  unfolding take_token
  take_token-Pays now tb soon b v h =
      let p = refill-Pays float per_second now soon tb b v h in
      let v' = refill-IsValid float per_second now soon tb b v h in
      elim (Bool-cases (ltb_ℤ (pos 0) (refill float now tb).tokens)) [
        | inl q ↦ rw (take_token, q) (spent-Pays per_second now tb (refill float now tb) p v' q)
        | inr q ↦ rw (take_token, q) p
      ]

  -- A series of takes: how many were granted, and the bucket at the end.
  unfoldable pub takes : List ℕ → TokenBucket F → ℕ × TokenBucket F
  takes [] tb = (0, tb)
  takes (now ∷ times) tb =
      let (got, tb') = take_token float now tb in
      let (n, tb'') = takes times tb' in (one_if got + n, tb'')

  -- The clock's readings do not fall, from a first time up to a last one.
  abbrev pub Rising : ℕ → List ℕ → ℕ → Type 0
  Rising first [] last = first ≤ last
  Rising first (t ∷ times) last = (first ≤ t) × Rising t times last

  Rising-le : (first last : ℕ) (times : List ℕ) → Rising first times last → first ≤ last
  Rising-le first last [] h = h
  Rising-le first last (t ∷ times) (h, hs) = omega (arith, Rising-le t last times hs)

  Rising-weaken :
      (a b last : ℕ) (times : List ℕ) → a ≤ b → Rising b times last → Rising a times last
  Rising-weaken a b last [] h r = omega arith
  Rising-weaken a b last (t ∷ times) h (r, rs) = (omega arith, rs)

  takes-Pays :
      (times : List ℕ) (last : ℕ) (tb : TokenBucket F)
      → last < 2 ^ 63
      → IsBounded float tb.refill_rate per_second
      → IsValid tb
      → Rising tb.last_refill times last
      → Pays per_second last (takes times tb).0 tb (takes times tb).1
  unfolding takes
  takes-Pays [] last tb soon b v h = record {
    paid = omega arith;
    later = omega arith;
    by_now = h;
    same_rate = refl;
  }
  takes-Pays (now ∷ times) last tb soon b v (h, rising) =
      let (got, tb') = take_token float now tb in
      let soon' : now < 2 ^ 63 = omega (arith, Rising-le now last times rising) in
      let p = take_token-Pays now tb soon' b v h in
      let v' = take_token-IsValid float per_second now soon' tb b v h in
      let b' : IsBounded float tb'.refill_rate per_second =
        subst (λ r. IsBounded float r per_second) (sym p.same_rate) b in
      let q =
        takes-Pays times last tb' soon b' v' (Rising-weaken _ now last times p.by_now rising) in
      record {
        paid = omega (arith, p.paid, q.paid);
        later = omega (arith, p.later, q.later);
        by_now = q.by_now;
        same_rate = q.same_rate ∙ p.same_rate;
      }

  -- However often a valid bucket of a bounded rate is asked, at times that do not fall, it grants
  -- at most the tokens that it had and `per_second` for each second from its last refill to the
  -- last reading of the clock.
  pub takes_rate :
      (times : List ℕ) (last : ℕ) (tb : TokenBucket F)
      → last < 2 ^ 63
      → IsBounded float tb.refill_rate per_second
      → IsValid tb
      → Rising tb.last_refill times last
      → (takes times tb).0 * 10 ^ 9 + per_second * tb.last_refill
        ≤ pos_part tb.tokens * 10 ^ 9 + per_second * last
  takes_rate times last tb soon b v h =
      let p = takes-Pays times last tb soon b v h in
      omega (arith, p.paid, mul-le-mul_left per_second p.by_now)
