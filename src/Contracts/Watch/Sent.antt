-- ===== src/Contracts/Watch/Sent.antt =====
-- What reaches the sink of a watched event.
use d8x_etherfi.Base.{
  ◌≡◌, refl, sym, ap, ◌∙◌, ◌⊎◌, inl, inr, List, [], ◌∷◌, ◌++◌, Option, none, some, String, Error,
  Option-cases, Result-cases, ok, map,
}
use mathlib.Core.Path.{subst, ap₂}
use mathlib.Core.Option.{some-injective}
use mathlib.Core.List.{append_assoc, append-nil}
use d8x_etherfi.Chain.{Address}
use d8x_etherfi.Contracts.{Erc20Filterer}
use d8x_etherfi.Contracts.Events.{Event, Unpack}
use d8x_etherfi.Contracts.Events.Drained.{readable}
use d8x_etherfi.Contracts.Watch.{
  Choice, log_arrives, sink_takes, sub_fails, quits, Watching, listening, offering, unsubscribed,
  Watcher, unpacked, step, step_at, run, new_watcher, WatchLogs, watch,
}

-- The logs that arrive.
abbrev pub arrivals : {RawLog : Type 0} → List (Choice RawLog) → List RawLog
arrivals [] = []
arrivals (log_arrives log ∷ cs) = log ∷ arrivals cs
arrivals (sink_takes ∷ cs) = arrivals cs
arrivals (sub_fails e ∷ cs) = arrivals cs
arrivals (quits ∷ cs) = arrivals cs

-- What is read of two lists of logs, one after the other.
abbrev joined : {E : Type 0} → List E × Option Error → List E × Option Error → List E × Option Error
joined (es, some e) r = (es, some e)
joined (es, none) (fs, f) = (es ++ fs, f)

joined-cons :
    {E : Type 0} (x : E) (p r : List E × Option Error)
    → joined (x ∷ p.0, p.1) r ≡ (x ∷ (joined p r).0, (joined p r).1)
joined-cons x (es, none) r = refl
joined-cons x (es, some e) r = refl

module _ {Bound RawLog Fields : Type 0} (unpack : Unpack Bound RawLog Fields) (contract : Bound)
    (event_name : String) where
  readable-append :
      (xs ys : List RawLog)
      → readable unpack contract event_name (xs ++ ys)
        ≡ joined (readable unpack contract event_name xs) (readable unpack contract event_name ys)
  readable-append [] ys = refl
  readable-append (x ∷ xs) ys = elim (Option-cases (unpack contract event_name x).1) [
    | inr (e, p) ↦ rw (readable, p)
    | inl p ↦
        let event : Event Fields RawLog = record {
          fields = (unpack contract event_name x).0;
          raw = some x;
        } in
        rw (readable, p)
          (ap (λ r. (event ∷ r.0, r.1)) (readable-append xs ys)
            ∙ sym (joined-cons event (readable unpack contract event_name xs) _))
  ]

  -- The sink has the events of all logs that arrived, in order, but for one that is on offer; at the
  -- end but for one that was dropped, or up to the log whose error is returned.
  abbrev pub Sent : List RawLog → Watching Fields RawLog → List (Event Fields RawLog) → Type 0
  Sent logs listening sunk = readable unpack contract event_name logs ≡ (sunk, none)
  Sent logs (offering event) sunk =
      readable unpack contract event_name logs ≡ (sunk ++ event ∷ [], none)
  Sent logs (unsubscribed failure) sunk =
      (readable unpack contract event_name logs ≡ (sunk, none))
      ⊎ ((event : Event Fields RawLog) × (readable unpack contract event_name logs
            ≡ (sunk ++ event ∷ [], none)))
      ⊎ ((e : Error) × (failure ≡ some e)
          × (readable unpack contract event_name logs ≡ (sunk, some e)))

  unpacked-Sent :
      (logs : List RawLog) (log : RawLog) (sunk : List (Event Fields RawLog))
      → readable unpack contract event_name logs ≡ (sunk, none)
      → Sent (logs ++ log ∷ []) (unpacked unpack contract event_name log) sunk
  unpacked-Sent logs log sunk h = elim (Option-cases (unpack contract event_name log).1) [
    | inl p ↦
        let event : Event Fields RawLog = record {
          fields = (unpack contract event_name log).0;
          raw = some log;
        } in
        let last : readable unpack contract event_name (log ∷ []) ≡ (event ∷ [], none) =
          rw (readable, p) in
        rw (unpacked, p) (readable-append logs (log ∷ []) ∙ ap₂ joined h last)
    | inr (e, p) ↦
        let last : readable unpack contract event_name (log ∷ []) ≡ ([], some e) =
          rw (readable, p) in
        rw (unpacked, p)
          (inr (
            inr (
              e,
              refl,
              readable-append logs (log ∷ [])
                  ∙ ap₂ joined h last
                  ∙ ap (λ es. (es, some e)) (append-nil sunk),
            )))
  ]

  -- A step at which no log arrives.
  silent :
      (logs : List RawLog) (u t : Watcher Fields RawLog)
      → some u ≡ some t
      → Sent logs u.watching u.sunk
      → Sent (logs ++ []) t.watching t.sunk
  silent logs u t q h =
      subst (λ v. Sent (logs ++ []) v.watching v.sunk) (some-injective _ _ q)
        (subst (λ ls. Sent ls u.watching u.sunk) (sym (append-nil logs)) h)

  step_at-Sent :
      (w : Watching Fields RawLog) (c : Choice RawLog) (logs : List RawLog)
      (sunk : List (Event Fields RawLog)) (t : Watcher Fields RawLog)
      → step_at unpack contract event_name w sunk c ≡ some t
      → Sent logs w sunk
      → Sent (logs ++ arrivals (c ∷ [])) t.watching t.sunk
  step_at-Sent listening (log_arrives log) logs sunk t q h =
      subst (λ u. Sent (logs ++ log ∷ []) u.watching u.sunk) (some-injective _ _ q)
        (unpacked-Sent logs log sunk h)
  step_at-Sent listening sink_takes logs sunk t q h = absurd (cc q)
  step_at-Sent listening (sub_fails e) logs sunk t q h = silent logs _ t q (inl h)
  step_at-Sent listening quits logs sunk t q h = silent logs _ t q (inl h)
  step_at-Sent (offering event) (log_arrives log) logs sunk t q h = absurd (cc q)
  step_at-Sent (offering event) sink_takes logs sunk t q h = silent logs _ t q h
  step_at-Sent (offering event) (sub_fails e) logs sunk t q h =
      silent logs _ t q (inr (inl (event, h)))
  step_at-Sent (offering event) quits logs sunk t q h = silent logs _ t q (inr (inl (event, h)))
  step_at-Sent (unsubscribed f) (log_arrives log) logs sunk t q h = absurd (cc q)
  step_at-Sent (unsubscribed f) sink_takes logs sunk t q h = absurd (cc q)
  step_at-Sent (unsubscribed f) (sub_fails e) logs sunk t q h = absurd (cc q)
  step_at-Sent (unsubscribed f) quits logs sunk t q h = absurd (cc q)

  arrivals-cons :
      (c : Choice RawLog) (cs : List (Choice RawLog))
      → arrivals (c ∷ []) ++ arrivals cs ≡ arrivals (c ∷ cs)
  arrivals-cons (log_arrives log) cs = refl
  arrivals-cons sink_takes cs = refl
  arrivals-cons (sub_fails e) cs = refl
  arrivals-cons quits cs = refl

  run-keeps :
      (cs : List (Choice RawLog)) (logs : List RawLog) (s t : Watcher Fields RawLog)
      → run unpack contract event_name cs s ≡ some t
      → Sent logs s.watching s.sunk
      → Sent (logs ++ arrivals cs) t.watching t.sunk
  unfolding run step
  run-keeps [] logs s t q h = silent logs s t q h
  run-keeps (c ∷ cs) logs s t q h = elim (Option-cases (step unpack contract event_name s c)) [
    | inl p ↦ absurd (cc (rw (run, p) at q))
    | inr (u, p) ↦
        subst (λ ls. Sent ls t.watching t.sunk)
          (append_assoc logs (arrivals (c ∷ [])) (arrivals cs)
            ∙ ap (λ ls. logs ++ ls) (arrivals-cons c cs))
          (run-keeps cs (logs ++ arrivals (c ∷ [])) u t (rw (run, p) at q)
            (step_at-Sent s.watching c logs s.sunk u p h))
  ]

module _ {W Bound WatchOpts Value Sub RawLog Fields : Type 0}
    (watch_logs : WatchLogs W Bound WatchOpts Value Sub) (unpack : Unpack Bound RawLog Fields) where
  -- For every run of a watched event that was subscribed to, in whatever order logs, errors, the sink
  -- and the subscriber's end are taken: the sink has the events of all logs that arrived, each once
  -- and in order, but for one on offer; and when the function has ended, it has them all but for one
  -- that was on offer at the end, or all up to a log that could not be unpacked, and that log's error
  -- is returned.
  pub watch-Sent :
      (of_address : Address → Value) (c : Erc20Filterer Bound) (opts : WatchOpts)
      (first second : List Address) (event_name : String) (w w' : W) (sub : Sub)
      (s t : Watcher Fields RawLog) (cs : List (Choice RawLog))
      → watch watch_logs of_address c opts first second w event_name ≡ (ok (sub, s), w')
      → run unpack c.contract event_name cs s ≡ some t
      → Sent unpack c.contract event_name (arrivals cs) t.watching t.sunk
  unfolding watch
  watch-Sent of_address c opts first second event_name w w' sub s t cs made q =
      let r =
        (watch_logs c.contract opts event_name (map of_address first ∷ map of_address second ∷ [])
          w).0 in
      let fresh : s ≡ new_watcher = elim (Result-cases r) [
        | inl (x, p) ↦ cc (rw (watch, p) at made)
        | inr (e, p) ↦ absurd (cc (rw (watch, p) at made))
      ] in
      run-keeps unpack c.contract event_name cs [] new_watcher t
        (subst (λ v. run unpack c.contract event_name cs v ≡ some t) fresh q) refl
