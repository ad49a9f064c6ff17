-- ===== src/Etherfi/RunFilter.antt =====
-- `RunFilter` of internal/etherfi/runfilter.go. Its two goroutines run side by side, each over its own
-- table and its own block of `LastBlockTo`; the timer that calls it again is left out.
pub mod Table
pub mod Views
pub mod Refines
pub mod InStep
pub mod Changes
pub mod Synced
pub mod Life
pub mod Members
pub mod Caught
pub mod Lives
pub mod Answered
pub mod Follows
pub mod Advances
pub mod Dropped
use d8x_etherfi.Base.{
  ℕ, zero, suc, ◌+◌, ◌%◌, ◌^◌, ◌≡◌, List, [], ◌∷◌, Option, none, some, Error, if◌then◌else◌,
}
use d8x_etherfi.Chain.{Geth}
use d8x_etherfi.Filterer.{Log, Filtered}
use d8x_etherfi.Etherfi.App.{App}
use d8x_etherfi.Etherfi.Store.{
  Db, TransferRow, DelegateRow, Inserted, all_in, failed, wrong_type, db_get_delegate_start_block,
  db_get_sh_tkn_transfer_start_block, db_insert_delegates, db_insert_sh_tkn_transfer,
}

-- What the database answers to one goroutine: an error of the start block's query, one of the
-- statement, and what it makes of each row.
pub record Answers (Row : Type 0) : Type 0 where
  pub start_failure : Option Error
  pub prepare_failure : Option Error
  pub exec : Row → List Row → Option Error

module _ {F : Type 0} (geth : Geth) where
  -- What is left to do when the insert loop is through: only a panic keeps the block back.
  abbrev pub finish : App F → Inserted × Db → Option (App F × Db)
  finish app (all_in, db) = some (app, db)
  finish app (failed e, db) = some (app, db)
  finish app (wrong_type, db) = none

  -- The end of the first goroutine, from what the filterer has found.
  unfoldable pub store_delegates :
      Filtered Log → Answers DelegateRow → App F × Db → Option (App F × Db)
  store_delegates found answers (app, db) = elim found.failure [
    | some e ↦ some (app, db)
    | none ↦
        finish (record app { last_delegates = found.block })
          (db_insert_delegates app geth answers.prepare_failure answers.exec found.logs found.block
            db)
  ]

  -- The first goroutine. `read start` is what `FilterDelegateEvts(start, 0)` returns. `none` is a panic.
  unfoldable pub run_delegates :
      (ℕ → Filtered Log) → Answers DelegateRow → App F × Db → Option (App F × Db)
  unfolding store_delegates
  run_delegates read answers (app, db) =
      let (block, app') = db_get_delegate_start_block app db answers.start_failure in
      store_delegates (read ((block + 1) % 2 ^ 64)) answers (app', db)

  -- The end of the second goroutine, from what the filterer has found.
  unfoldable pub store_transfers :
      Filtered Log → Answers TransferRow → App F × Db → Option (App F × Db)
  store_transfers found answers (app, db) = elim found.failure [
    | some e ↦ some (app, db)
    | none ↦
        finish (record app { last_transfers = found.block })
          (db_insert_sh_tkn_transfer app geth answers.prepare_failure answers.exec found.logs
            found.block db)
  ]

  -- The second goroutine, with `FilterTransferEvts`.
  unfoldable pub run_transfers :
      (ℕ → Filtered Log) → Answers TransferRow → App F × Db → Option (App F × Db)
  unfolding store_transfers
  run_transfers read answers (app, db) =
      let (block, app') = db_get_sh_tkn_transfer_start_block app db answers.start_failure in
      store_transfers (read ((block + 1) % 2 ^ 64)) answers (app', db)

  -- Both, one after the other.
  unfoldable pub run_filter :
      (ℕ → Filtered Log)
      → Answers DelegateRow
      → (ℕ → Filtered Log)
      → Answers TransferRow
      → App F × Db
      → Option (App F × Db)
  unfolding run_delegates run_transfers
  run_filter read_d answers_d read_t answers_t st = elim (run_delegates read_d answers_d st) [
    | none ↦ none
    | some st' ↦ run_transfers read_t answers_t st'
  ]
