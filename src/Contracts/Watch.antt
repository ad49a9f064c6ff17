-- ===== src/Contracts/Watch.antt =====
-- `WatchTransfer` and `WatchApproval`: the function that a new subscription runs, which unpacks logs
-- and sends them to a sink. Each `select` takes one of the choices that are open to it.
pub mod Sent
use d8x_etherfi.Base.{List, [], ◌∷◌, ◌++◌, map, Option, none, some, String, Result, ok, err, Error}
use d8x_etherfi.Chain.{Address}
use d8x_etherfi.Contracts.{Erc20Filterer}
use d8x_etherfi.Contracts.Events.{Event, Erc20Transfer, Erc20Approval, Unpack}

-- What a `select` may take.
pub data Choice (RawLog : Type 0) : Type 0 where
  log_arrives : RawLog → Choice RawLog
  sink_takes : Choice RawLog
  sub_fails : Option Error → Choice RawLog
  quits : Choice RawLog

-- Where the function stands: at the outer `select`, at the inner one with an event, or at its end,
-- with what it returned and after the deferred `Unsubscribe`.
pub data Watching (Fields RawLog : Type 0) : Type 0 where
  listening : Watching Fields RawLog
  offering : Event Fields RawLog → Watching Fields RawLog
  unsubscribed : Option Error → Watching Fields RawLog

-- The watcher, with what the sink has taken so far.
pub record Watcher (Fields RawLog : Type 0) : Type 0 where
  pub watching : Watching Fields RawLog
  pub sunk : List (Event Fields RawLog)

module _ {Bound RawLog Fields : Type 0} (unpack : Unpack Bound RawLog Fields) (contract : Bound)
    (event_name : String) where
  -- A log at the outer `select`.
  abbrev pub unpacked : RawLog → Watching Fields RawLog
  unpacked log =
      let (fields, failure) = unpack contract event_name log in
      elim failure [
        | some e ↦ unsubscribed (some e)
        | none ↦ offering (record { fields = fields; raw = some log })
      ]

  abbrev pub step_at :
      Watching Fields RawLog
      → List (Event Fields RawLog)
      → Choice RawLog
      → Option (Watcher Fields RawLog)
  step_at listening sunk (log_arrives log) = some (record { watching = unpacked log; sunk = sunk })
  step_at listening sunk (sub_fails e) = some (record { watching = unsubscribed e; sunk = sunk })
  step_at listening sunk quits = some (record { watching = unsubscribed none; sunk = sunk })
  step_at listening sunk sink_takes = none
  step_at (offering event) sunk sink_takes =
      some (record { watching = listening; sunk = sunk ++ event ∷ [] })
  step_at (offering event) sunk (sub_fails e) =
      some (record { watching = unsubscribed e; sunk = sunk })
  step_at (offering event) sunk quits = some (record { watching = unsubscribed none; sunk = sunk })
  step_at (offering event) sunk (log_arrives log) = none
  step_at (unsubscribed e) sunk (log_arrives log) = none
  step_at (unsubscribed e) sunk (sub_fails f) = none
  step_at (unsubscribed e) sunk quits = none
  step_at (unsubscribed e) sunk sink_takes = none

  -- One `select`: `none` for a choice that is not open.
  unfoldable pub step : Watcher Fields RawLog → Choice RawLog → Option (Watcher Fields RawLog)
  step s c = step_at s.watching s.sunk c

  -- All of the function's rounds, for the choices in their order.
  unfoldable pub run : List (Choice RawLog) → Watcher Fields RawLog → Option (Watcher Fields RawLog)
  unfolding step
  run [] s = some s
  run (c ∷ cs) s = elim (step s c) [ none ↦ none | some t ↦ run cs t ]

-- The watcher of a new subscription.
abbrev pub new_watcher : {RawLog Fields : Type 0} → Watcher Fields RawLog
new_watcher = record { watching = listening; sunk = [] }

-- The query for the logs to come.
abbrev pub WatchLogs : Type 0 → Type 0 → Type 0 → Type 0 → Type 0 → Type 0
WatchLogs W Bound WatchOpts Value Sub =
    Bound → WatchOpts → String → List (List Value) → W → Result Sub × W

module _ {W Bound WatchOpts Value Sub : Type 0} (watch_logs : WatchLogs W Bound WatchOpts Value Sub)
    (of_address : Address → Value) (c : Erc20Filterer Bound) (opts : WatchOpts)
    (first second : List Address) (w : W) where
  -- Either method but for the name: the logs are asked for, and with no error the subscription starts
  -- with a new watcher.
  unfoldable pub watch :
      {Fields RawLog : Type 0} → String → Result (Sub × Watcher Fields RawLog) × W
  watch event_name =
      let (r, w') =
        watch_logs c.contract opts event_name (map of_address first ∷ map of_address second ∷ [])
          w in
      (elim r [ err e ↦ err e | ok sub ↦ ok (sub, new_watcher) ], w')

  unfoldable pub watch_transfer :
      {RawLog : Type 0} → Result (Sub × Watcher Erc20Transfer RawLog) × W
  unfolding watch
  watch_transfer = watch "Transfer"

  unfoldable pub watch_approval :
      {RawLog : Type 0} → Result (Sub × Watcher Erc20Approval RawLog) × W
  unfolding watch
  watch_approval = watch "Approval"
