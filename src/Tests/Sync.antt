-- ===== src/Tests/Sync.antt =====
-- Events read from the chain and stored.
use d8x_etherfi.Filterer.{Filtered}
use d8x_etherfi.Etherfi.RunFilter.{store_delegates}
use d8x_etherfi.Etherfi.RunFilter.Dropped.{Kept, store_delegates-Kept}
use d8x_etherfi.Etherfi.Store.Keys.{delegates_pkey}
use d8x_etherfi.Etherfi.Store.{DelegateRow}
use d8x_etherfi.Base.{ℕ, ◌≡◌, refl, List, [], ◌∷◌, map, Option, none, some, ok, err, arith}
use d8x_etherfi.Base.Int.{ℤ, pos, int64}
use d8x_etherfi.Chain.{Address}
use d8x_etherfi.Filterer.{
  SetDelegateEvent, Delegate, delegate_log, TransferEvent, Log, EventNode, process_transfer_event,
  filter_transfer_evts,
}
use d8x_etherfi.Filterer.Window.{within, IsSorted}
use d8x_etherfi.Filterer.Events.{AllOrFailed, filter_transfer_evts_lem}
use d8x_etherfi.Etherfi.App.{App}
use d8x_etherfi.Etherfi.Store.{Db, TransferRow}
use d8x_etherfi.Etherfi.RunFilter.{Answers, run_transfers}
use d8x_etherfi.Etherfi.RunFilter.InStep.{NeverFails}
use d8x_etherfi.Etherfi.RunFilter.Synced.{TransfersSynced}
use d8x_etherfi.Etherfi.RunFilter.Follows.{run_transfers-filter_transfer_evts}
use d8x_etherfi.Tests.World.{geth, pool, app, flaky, flaky-ok, text_a, text_b}

abbrev transfers : List TransferEvent
transfers =
    record { from = 0; to = b'A'; block_number = 6 }
    ∷ record { from = b'A'; to = b'b'; block_number = 9 }
    ∷ []

abbrev delegations : List SetDelegateEvent
delegations =
    record { trader = b'a'; delegate = b'b'; index = 2; block_number = 7 }
    ∷ record { trader = b'c'; delegate = b'b'; index = 2; block_number = 12_000 }
    ∷ []

-- A node at block 20000 that fails now and then.
abbrev event_node : EventNode ℕ ℕ Address Address
event_node = record {
  header_by_number = λ c w. (ok 20_000, w);
  new_manager = λ a c. ok a;
  new_erc20 = λ a c. ok a;
  filter_set_delegate = λ m a b. flaky (within (λ e. e.block_number) a b delegations);
  filter_transfer = λ m a b. flaky (within (λ e. e.block_number) a b transfers);
}

filter_transfer_evts_lem_example :
    AllOrFailed
      (λ e.
        (a : ℕ) × (b : Option ℕ) × (v : ℕ) × ((event_node.filter_transfer b's' a b v).0 ≡ err e))
      (map (process_transfer_event geth) (within (λ e. e.block_number) 6 none transfers))
      20_000
      (filter_transfer_evts geth pool event_node b'p' b's' 6 0 5).0
filter_transfer_evts_lem_example =
    filter_transfer_evts_lem geth pool event_node b'p' b's' 20_000 6 (omega arith) 5 b's' transfers
      ((omega arith, tt), (tt, tt)) (omega arith, (omega arith, tt))
      (λ a b v es. flaky-ok (within (λ e. e.block_number) a b transfers) es v) refl refl
      (omega arith)

sorted : IsSorted (λ (e : TransferEvent). e.block_number) transfers
sorted = ((omega arith, tt), (tt, tt))

-- A database that takes every row.
abbrev from_db : Answers TransferRow
from_db = record { start_failure = none; prepare_failure = none; exec = λ r rows. none }

from_db-NeverFails : NeverFails from_db
from_db-NeverFails = record { starts = refl; prepares = refl; accepts = λ r rows. refl }

abbrev empty_db : Db
empty_db = record { sh_tkn_transfer = []; delegates = [] }

abbrev history : List Log
history = map (process_transfer_event geth) transfers

-- Nothing is stored yet, and nothing has happened up to the block of genesis.
empty-TransfersSynced : TransfersSynced geth history app empty_db
unfolding process_transfer_event int64
empty-TransfersSynced = record { rows_are = refl; past_genesis = omega arith; dated = tt }

run_transfers-filter_transfer_evts_example :
    (a : App ℤ) × (d : Db) × (run_transfers geth
        (λ start. (filter_transfer_evts geth pool event_node b'p' b's' start 0 5).0)
        from_db
        (app, empty_db)
      ≡ some (a, d))
    × TransfersSynced geth history a d
run_transfers-filter_transfer_evts_example =
    run_transfers-filter_transfer_evts geth pool event_node b'p' b's' 20_000 (omega arith) 5 b's'
      transfers sorted (omega arith, (omega arith, tt)) (omega arith, (omega arith, tt))
      (λ a b v es. flaky-ok (within (λ e. e.block_number) a b transfers) es v) refl refl from_db app
      empty_db from_db-NeverFails (omega arith) empty-TransfersSynced

-- Two delegations of one wallet in a block, for two indices.
abbrev twice : List Delegate
twice =
    record { addr = text_a; delegate = text_b; index = pos 1; block_nr = pos 7 }
    ∷ record { addr = text_a; delegate = text_b; index = pos 2; block_nr = pos 7 }
    ∷ []

abbrev found : Filtered Log
found = record { logs = map delegate_log twice; block = 20; failure = none }

abbrev keyed : Answers DelegateRow
keyed = record {
  start_failure = none;
  prepare_failure = none;
  exec = delegates_pkey "duplicate key value";
}

store_delegates-Kept_example :
    (rows : List DelegateRow) × (store_delegates geth found keyed (app, empty_db)
      ≡ some (record app { last_delegates = 20 }, record empty_db { delegates = rows }))
    × Kept geth app empty_db "duplicate key value" 20 twice rows
store_delegates-Kept_example =
    store_delegates-Kept geth app empty_db "duplicate key value" 20 twice found keyed refl refl refl
      refl refl
