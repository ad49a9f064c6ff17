-- ===== src/Filterer/Complete.antt =====
-- A scan reads every event of the history once, however the nodes fail on the way.
use d8x_etherfi.Base.{
  ℕ, zero, suc, ◌+◌, ◌-◌, ◌/◌, ◌%◌, ◌^◌, ◌≤◌, ◌<◌, ◌≡◌, ap, ◌∙◌, List, ◌++◌, leb, Option, none,
  some, arith, inl, inr, Bool-cases, Result, ok, err, Error, Result-cases, Option-cases,
}
use mathlib.Core.List.{append_assoc}
use mathlib.Core.Path.{subst}
use d8x_etherfi.Filterer.{Scan, scan, trials}
use d8x_etherfi.Filterer.Window.{within, IsSorted, within-append}

module _ {W L : Type 0} (block_of : L → ℕ) (fetch : ℕ → Option ℕ → W → Result (List L) × W)
    (now_block : ℕ) (history : List L) (sorted : IsSorted block_of history)
    (answers : (a : ℕ) (b : Option ℕ) (w : W) (es : List L)
      → (fetch a b w).0 ≡ ok es
      → es ≡ within block_of a b history) where
  abbrev pub Failed : Error → Type 0
  Failed e = (a : ℕ) × (b : Option ℕ) × (w : W) × ((fetch a b w).0 ≡ err e)

  -- With no failure the logs are all that was wanted. With one, it is a node's, and the logs with
  -- the events from the next window's start are what was wanted.
  abbrev pub Ends : List L → (start : ℕ) → List L → Option Error → Type 0
  Ends target start logs none = logs ≡ target
  Ends target start logs (some e) =
      (start ≤ now_block) × (logs ++ within block_of start none history ≡ target) × Failed e

  abbrev pub Covers : List L → Scan W L → Type 0
  Covers target s = Ends target s.start_block s.logs s.failure

  next_window :
      (start last : ℕ) (logs es target : List L)
      → start ≤ last + 1
      → es ≡ within block_of start (some last) history
      → logs ++ within block_of start none history ≡ target
      → (logs ++ es) ++ within block_of (last + 1) none history ≡ target
  next_window start last logs es target h e t =
      append_assoc logs es (within block_of (last + 1) none history)
      ∙ ap (λ xs. logs ++ xs)
          (ap (λ xs. xs ++ within block_of (last + 1) none history) e
            ∙ within-append block_of start last history sorted h)
      ∙ t

  module _ (delta : ℕ) (fits : now_block + delta + 1 < 2 ^ 64) where
    scan-Covers :
        (fuel start : ℕ) (logs target : List L) (w : W)
        → start ≤ now_block
        → now_block - start < fuel
        → logs ++ within block_of start none history ≡ target
        → Covers target (scan fetch now_block fuel delta start logs w)
    unfolding scan
    scan-Covers zero start logs target w h enough t = absurd (omega arith)
    scan-Covers (suc fuel) start logs target w h enough t =
        let exact : (start + delta) % 2 ^ 64 ≡ start + delta = omega arith in
        let exact' : (start + delta + 1) % 2 ^ 64 ≡ start + delta + 1 = omega arith in
        elim (Bool-cases (leb now_block (start + delta))) [
          | inl done ↦ elim (Result-cases (fetch start none w).0) [
            | inr (e, q) ↦ rw (scan, exact, done, q) (h, t, (start, none, w, q))
            | inl (es, q) ↦
                rw (scan, exact, done, q, exact, done)
                  (ap (λ xs. logs ++ xs) (answers start none w es q) ∙ t)
          ]
          | inr more ↦
              let end_block : Option ℕ = some (start + delta) in
              let below : start + delta < now_block = ground arith in
              elim (Result-cases (fetch start end_block w).0) [
                | inr (e, q) ↦ rw (scan, exact, more, q) (h, t, (start, end_block, w, q))
                | inl (es, q) ↦
                    rw (scan, exact, more, q, exact, more, exact')
                      (scan-Covers fuel (start + delta + 1) (logs ++ es) target
                        (fetch start end_block w).1 (omega arith) (omega arith)
                        (next_window start (start + delta) logs es target (omega arith)
                          (answers start end_block w es q) t))
              ]
        ]

  -- If every query that succeeds answers from one sorted history, then however the nodes fail, the
  -- trials end with every event of the history from the first block on, once and in order; or with
  -- the failure of a node, and a place from which a scan can go on.
  pub trials-Covers :
      (n delta start : ℕ) (logs target : List L) (w : W)
      → now_block + delta + 1 < 2 ^ 64
      → start ≤ now_block
      → logs ++ within block_of start none history ≡ target
      → Covers target (trials fetch now_block n delta start logs w)
  unfolding trials
  trials-Covers zero delta start logs target w fits h t =
      scan-Covers delta fits (now_block + 1) start logs target w h (omega arith) t
  trials-Covers (suc n) delta start logs target w fits h t =
      let s = scan fetch now_block (now_block + 1) delta start logs w in
      let c : Covers target s =
        scan-Covers delta fits (now_block + 1) start logs target w h (omega arith) t in
      elim (Option-cases s.failure) [
        | inl e ↦ rw (trials, e) c
        | inr (f, e) ↦
            let (h', t', _) = subst (Ends target s.start_block s.logs) e c in
            rw (trials, e)
              (trials-Covers n (delta / 2) s.start_block s.logs target s.world (omega arith) h' t')
      ]
