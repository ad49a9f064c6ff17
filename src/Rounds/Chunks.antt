-- ===== src/Rounds/Chunks.antt =====
-- The loop over the chunks of a list, as in QueryMultiTokenBalance, tryQueryAvailCash and
-- tryQueryActiveAddr: `to := min(n, inc); from := 0; for { …; from = to; to = min(n, to+inc);
-- if from >= n { break } }`.
use Prim.Native.Nat.{min}
use d8x_etherfi.Base.{
  ℕ, zero, suc, ◌+◌, ◌-◌, ◌≤◌, ◌<◌, ◌≡◌, ap, sym, ◌∙◌, inl, inr, Result, ok, err, Error,
  Result-cases, Bool-cases, leb, leb→le, if◌then◌else◌, List, [], ◌++◌, length, take, drop,
  take-append-drop, drop-drop, drop-all, arith,
}
use mathlib.Core.List.{append_assoc, append-nil}
use mathlib.Core.Path.{subst}

-- `xs[from:to]`
abbrev pub slice {ℓ} : {A : Type ℓ} → ℕ → ℕ → List A → List A
slice from to xs = take (to - from) (drop from xs)

pub slice-append-drop {ℓ} :
    {A : Type ℓ} (from to : ℕ) (xs : List A)
    → from ≤ to
    → slice from to xs ++ drop to xs ≡ drop from xs
slice-append-drop from to xs h =
    let e : from + (to - from) ≡ to = omega arith in
    let p : drop (to - from) (drop from xs) ≡ drop to xs =
      drop-drop (to - from) from xs ∙ ap (λ k. drop k xs) e in
    ap (λ ys. slice from to xs ++ ys) (sym p) ∙ take-append-drop (to - from) (drop from xs)

module _ {ℓ} {W A : Type ℓ} (inc n : ℕ) (fetch : ℕ → ℕ → W → Result (List A) × W) where
  -- `fuel` bounds the rounds; `chunked_lem` shows that it does not run out.
  unfoldable pub chunk_loop : (fuel from to : ℕ) → List A → W → Result (List A) × W
  chunk_loop zero from to acc w = (err "out of fuel", w)
  chunk_loop (suc fuel) from to acc w =
      let (r, w') = fetch from to w in
      elim r [
        | err e ↦ (err e, w')
        | ok xs ↦
            let rest = chunk_loop fuel to (min n (to + inc)) (acc ++ xs) w' in
            if leb n to then (ok (acc ++ xs), w') else rest
      ]

  unfoldable pub chunked : W → Result (List A) × W
  unfolding chunk_loop
  chunked = chunk_loop (suc n) 0 (min n inc) []

  -- A failure of the loop is the failure of a call that it made.
  abbrev pub Failed : Error → Type ℓ
  Failed e = (from : ℕ) × (to : ℕ) × (v : W) × ((fetch from to v).0 ≡ err e)

  abbrev pub Fetched : List A → Result (List A) → Type ℓ
  Fetched ys (ok xs) = xs ≡ ys
  Fetched ys (err e) = Failed e

  module _ (ys : List A) (size : length ys ≡ n) (pos_inc : 0 < inc)
      (answers : (from to : ℕ) (v : W) (xs : List A)
        → (fetch from to v).0 ≡ ok xs
        → xs ≡ slice from to ys) where
    last_chunk :
        (from to : ℕ) (acc xs : List A)
        → from ≤ to
        → n ≤ to
        → xs ≡ slice from to ys
        → acc ++ xs ≡ acc ++ drop from ys
    last_chunk from to acc xs h full e =
        let p : slice from to ys ++ [] ≡ drop from ys =
          ap (λ zs. slice from to ys ++ zs) (sym (drop-all to ys (omega arith)))
          ∙ slice-append-drop from to ys h in
        ap (λ zs. acc ++ zs) (e ∙ sym (append-nil _) ∙ p)

    next_chunk :
        (from to : ℕ) (acc xs : List A)
        → from ≤ to
        → xs ≡ slice from to ys
        → (acc ++ xs) ++ drop to ys ≡ acc ++ drop from ys
    next_chunk from to acc xs h e =
        append_assoc acc xs (drop to ys)
        ∙ ap (λ zs. acc ++ (zs ++ drop to ys)) e
        ∙ ap (λ zs. acc ++ zs) (slice-append-drop from to ys h)

    chunk_loop-Fetched :
        (fuel from to : ℕ) (acc : List A) (w : W)
        → from ≤ to
        → n - to < fuel
        → Fetched (acc ++ drop from ys) (chunk_loop fuel from to acc w).0
    unfolding chunk_loop
    chunk_loop-Fetched zero from to acc w h enough = absurd (omega arith)
    chunk_loop-Fetched (suc fuel) from to acc w h enough = elim (Result-cases (fetch from to w).0) [
      | inr (e, q) ↦ rw (q, chunk_loop) (from, to, w, q)
      | inl (xs, q) ↦ elim (Bool-cases (leb n to)) [
        | inl full ↦
            rw (q, chunk_loop, full)
              (last_chunk from to acc xs h (leb→le n to full) (answers from to w xs q))
        | inr more ↦
            let below : to < n = ground arith in
            rw (q, chunk_loop, more)
              (subst
                (λ zs.
                  Fetched zs
                    (chunk_loop fuel to (min n (to + inc)) (acc ++ xs) (fetch from to w).1).0)
                (next_chunk from to acc xs h (answers from to w xs q))
                (chunk_loop-Fetched fuel to (min n (to + inc)) (acc ++ xs) (fetch from to w).1
                  (omega arith) (omega arith)))
      ]
    ]

    -- For chunks that are not empty and calls that, where they succeed, answer with their part of
    -- a list `ys` of `n` items: the loop returns the whole of `ys` or the error of a call.
    pub chunked_lem : (w : W) → Fetched ys (chunked w).0
    unfolding chunked
    chunked_lem w = chunk_loop-Fetched (suc n) 0 (min n inc) [] w (omega arith) (omega arith)
