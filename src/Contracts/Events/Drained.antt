-- ===== src/Contracts/Events/Drained.antt =====
-- What a reader gets from an iterator: the loop `for it.Next() { … it.Event … }` over a subscription
-- that sends its logs in order and then ends.
use d8x_etherfi.Base.{
  ℕ, zero, suc, ◌≡◌, refl, sym, ap, inl, inr, Bool, true, false, List, [], ◌∷◌, Option, none, some,
  String, Result, ok, err, Error, length, Option-cases, Result-cases, ok_injective, map, ◌∙◌,
}
use mathlib.Core.Path.{subst}
use d8x_etherfi.Chain.{Address}
use d8x_etherfi.Contracts.{Erc20Filterer}
use d8x_etherfi.Contracts.Events.{
  Event, Unpack, Signal, arrived, ended, Feed, Iterator, deliver, next, next_done, next_waiting,
  filter,
}

module _ {Bound RawLog Fields : Type 0} (unpack : Unpack Bound RawLog Fields) (contract : Bound)
    (event_name : String) where
  -- The events of the logs up to the first that cannot be unpacked, and its error.
  abbrev pub readable : List RawLog → List (Event Fields RawLog) × Option Error
  readable [] = ([], none)
  readable (log ∷ logs) =
      let (fields, failure) = unpack contract event_name log in
      elim failure [
        | some e ↦ ([], some e)
        | none ↦ let (es, e) = readable logs in (record { fields = fields; raw = some log } ∷ es, e)
      ]

-- The error that a reader sees: that of a log, or else that of the subscription.
abbrev pub or_else : Option Error → Option Error → Option Error
or_else (some e) ending = some e
or_else none ending = ending

module _ {W Bound FilterOpts Value Sub RawLog : Type 0}
    (feed : Feed W Bound FilterOpts Value Sub RawLog) (sub : Sub) where
  -- What a blocking wait comes to with these logs to come: the first of them, or the end.
  abbrev pub Received :
      (W → List RawLog)
      → (W → Option Error)
      → List RawLog
      → Option Error
      → Signal RawLog × W
      → Type 0
  Received pending ending [] e (s, w) = (s ≡ ended e) × (pending w ≡ [])
  Received pending ending (log ∷ logs) e (s, w) =
      (s ≡ arrived log) × (pending w ≡ logs) × (ending w ≡ e)

  -- The subscription sends each log to whoever waits, in order, and then ends; it keeps none back.
  pub record IsDelivering : Type 0 where
    pub pending : W → List RawLog
    pub ending : W → Option Error
    pub receives : (w : W) → Received pending ending (pending w) (ending w) (feed.receive sub w)
    pub polls :
        (w : W) → pending w ≡ [] → ((feed.poll sub w).0 ≡ none) × (pending (feed.poll sub w).1 ≡ [])

module _ {W Bound FilterOpts Value Sub RawLog Fields : Type 0}
    (feed : Feed W Bound FilterOpts Value Sub RawLog) (unpack : Unpack Bound RawLog Fields) where
  abbrev pub Reading : Type 0
  Reading = Option (List (Event Fields RawLog) × Iterator Fields RawLog Bound Sub × W)

  -- One round, from what `Next` returned and with the rounds that follow. `none` is the end of the
  -- rounds, or an event that is not there.
  abbrev pub round :
      (Iterator Fields RawLog Bound Sub → W → Reading)
      → Bool × Iterator Fields RawLog Bound Sub × W
      → Reading
  round rest (false, it, w) = some ([], it, w)
  round rest (true, it, w) = elim it.event [
    | none ↦ none
    | some event ↦ elim (rest it w) [
      | none ↦ none
      | some (es, it', w') ↦ some (event ∷ es, it', w')
    ]
  ]

  -- The loop, for at most so many rounds.
  unfoldable pub drain : ℕ → Iterator Fields RawLog Bound Sub → W → Reading
  unfolding next
  drain zero it w = none
  drain (suc n) it w = round (drain n) (next feed unpack it w)

  -- The reader has the events of the readable logs in order, the iterator has the first error, and
  -- it has no more events.
  abbrev pub Drained : List (Event Fields RawLog) × Option Error → Option Error → Reading → Type 0
  Drained (events, failure) ending none = ⊥
  Drained (events, failure) ending (some (es, it, w)) =
      (es ≡ events) × (it.fail ≡ or_else failure ending) × ((next feed unpack it w).0 ≡ false)

  -- The iterator at the end of its logs: it keeps the error of the subscription, and stays there.
  next-at_end :
      (it : Iterator Fields RawLog Bound Sub) (w : W) (d : IsDelivering feed it.sub)
      → it.fail ≡ none
      → it.done ≡ false
      → d.pending w ≡ []
      → (it' : Iterator Fields RawLog Bound Sub) × (w' : W) × (next feed unpack it w
          ≡ (false, it', w'))
        × (it'.fail ≡ d.ending w)
        × ((next feed unpack it' w').0 ≡ false)
  unfolding next next_done next_waiting
  next-at_end it w d unfailed undone q =
      let got : Received feed it.sub d.pending d.ending [] (d.ending w) (feed.receive it.sub w) =
        subst
          (λ logs.
            Received feed it.sub d.pending d.ending logs (d.ending w) (feed.receive it.sub w))
          q (d.receives w) in
      let v = (feed.receive it.sub w).1 in
      elim (Option-cases (d.ending w)) [
        | inr (e, p) ↦ (
          record it { done = true; fail = some e },
          v,
          rw (next, unfailed, undone, next_waiting, got.0, p),
          sym p,
          refl,
        )
        | inl p ↦
            let polled = d.polls v got.1 in
            let again = d.polls (feed.poll it.sub v).1 polled.1 in
            (
              record it { done = true; fail = none },
              (feed.poll it.sub v).1,
              rw (next, unfailed, undone, next_waiting, got.0, p, next_done, polled.0),
              sym p,
              rw (next_done, again.0),
            )
      ]

  -- A round that found an event puts it in front of what the others read.
  round-Drained :
      (event : Event Fields RawLog) (it : Iterator Fields RawLog Bound Sub) (w : W)
      (rest : Iterator Fields RawLog Bound Sub → W → Reading)
      (expected : List (Event Fields RawLog) × Option Error) (ending : Option Error)
      → it.event ≡ some event
      → Drained expected ending (rest it w)
      → Drained (event ∷ expected.0, expected.1) ending (round rest (true, it, w))
  round-Drained event it w rest expected ending q h = elim (Option-cases (rest it w)) [
    | inl none_left ↦ absurd (subst (Drained expected ending) none_left h)
    | inr ((es, it', w'), p) ↦
        let (same, f, stays) = subst (Drained expected ending) p h in
        rw (q, p) (ap (◌∷◌ event) same, f, stays)
  ]

  drain-Drained :
      (logs : List RawLog) (it : Iterator Fields RawLog Bound Sub) (w : W)
      (d : IsDelivering feed it.sub)
      → it.fail ≡ none
      → it.done ≡ false
      → d.pending w ≡ logs
      → Drained
          (readable unpack it.contract it.event_name logs)
          (d.ending w)
          (drain (suc (length logs)) it w)
  unfolding drain next next_done next_waiting
  drain-Drained [] it w d unfailed undone q =
      let (it', w', e, f, stays) = next-at_end it w d unfailed undone q in
      subst (λ r. Drained ([], none) (d.ending w) (round (drain zero) r)) (sym e) (refl, f, stays)
  drain-Drained (log ∷ logs) it w d unfailed undone q =
      let got : Received feed it.sub d.pending d.ending (log ∷ logs) (d.ending w)
          (feed.receive it.sub w) =
        subst
          (λ ls. Received feed it.sub d.pending d.ending ls (d.ending w) (feed.receive it.sub w)) q
          (d.receives w) in
      let v = (feed.receive it.sub w).1 in
      let (fields, failure) = unpack it.contract it.event_name log in
      elim (Option-cases (unpack it.contract it.event_name log).1) [
        | inr (e, p) ↦
            let stopped : next feed unpack it w ≡ (
              false,
              record it { event = some (record { fields = fields; raw = none }); fail = some e },
              v,
            ) =
              rw (next, unfailed, undone, next_waiting, got.0, deliver, p, undone) in
            rw (readable, p)
              (subst (λ r. Drained ([], some e) (d.ending w) (round (drain (suc (length logs))) r))
                (sym stopped) (refl, refl, refl))
        | inl p ↦
            let event : Event Fields RawLog = record { fields = fields; raw = some log } in
            let it' : Iterator Fields RawLog Bound Sub = record it {
              event = some event;
              done = false;
              fail = none;
            } in
            let found : next feed unpack it w ≡ (true, it', v) =
              rw (next, unfailed, undone, next_waiting, got.0, deliver, p, unfailed, undone) in
            let ih =
              subst
                (λ e.
                  Drained (readable unpack it.contract it.event_name logs) e
                    (drain (suc (length logs)) it' v))
                got.2 (drain-Drained logs it' v d refl refl got.1) in
            let (es, failure) = readable unpack it.contract it.event_name logs in
            rw (readable, p)
              (subst
                (λ r.
                  Drained (event ∷ es, failure) (d.ending w) (round (drain (suc (length logs))) r))
                (sym found)
                (round-Drained event it' v (drain (suc (length logs)))
                  (readable unpack it.contract it.event_name logs) (d.ending w) refl ih))
      ]

  -- Whoever filters a contract's events and reads them with `for it.Next() { … }`, over a
  -- subscription that sends its logs one by one and then ends: `Next` returns false after one round
  -- more than there are logs at most, and the reader then has the events of all logs up to the first
  -- that cannot be unpacked, in order, each with its log; the iterator has the error of that log, or
  -- else the one that the subscription ended with; and another `Next` returns false again. No event
  -- is missing where there should be one.
  pub filter-Drained :
      (event_name : String) (of_address : Address → Value) (c : Erc20Filterer Bound)
      (opts : FilterOpts) (first second : List Address) (w w' : W)
      (it : Iterator Fields RawLog Bound Sub)
      → filter feed unpack event_name of_address c opts first second w ≡ (ok it, w')
      → (d : IsDelivering feed it.sub)
      → Drained
          (readable unpack c.contract event_name (d.pending w'))
          (d.ending w')
          (drain (suc (length (d.pending w'))) it w')
  unfolding filter
  filter-Drained event_name of_address c opts first second w w' it made d =
      let (r, v) =
        feed.filter_logs c.contract opts event_name
          (map of_address first ∷ map of_address second ∷ []) w in
      elim (Result-cases r) [
        | inr (e, q) ↦
            let failed : (filter feed unpack event_name of_address c opts first second w).0
                ≡ err e =
              rw (filter, q) in
            let both : ◌≡◌ {A = Result (Iterator Fields RawLog Bound Sub)} (err e) (ok it) =
              sym failed ∙ ap (λ x. x.0) made in
            absurd (cc both)
        | inl (sub, q) ↦
            let fresh : it ≡ record {
              event = none;
              contract = c.contract;
              event_name = event_name;
              sub = sub;
              done = false;
              fail = none;
            } =
              ok_injective (sym (ap (λ x. x.0) made) ∙ rw (filter, q)) in
            subst
              (λ x.
                Drained (readable unpack x.contract x.event_name (d.pending w')) (d.ending w')
                  (drain (suc (length (d.pending w'))) it w'))
              fresh
              (drain-Drained (d.pending w') it w' d (ap (λ x. x.fail) fresh)
                (ap (λ x. x.done) fresh) refl)
      ]
