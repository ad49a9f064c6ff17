-- ===== src/Etherfi/RunFilter/Synced.antt =====
-- Both tables keep up with the chain.
use d8x_etherfi.Base.{ℕ, ◌+◌, ◌^◌, ◌≤◌, ◌<◌, ◌≡◌, refl, ap, ◌∙◌, List, some, max}
use d8x_etherfi.Chain.{Geth}
use d8x_etherfi.Filterer.{Log, Filtered, transfer_log, delegate_log}
use d8x_etherfi.Etherfi.App.{App}
use d8x_etherfi.Etherfi.Store.{Db, TransferRow, DelegateRow}
use d8x_etherfi.Etherfi.RunFilter.{Answers, run_transfers, run_delegates}
use d8x_etherfi.Etherfi.RunFilter.Table.{known}
use d8x_etherfi.Etherfi.RunFilter.Views.{
  transfers, delegations, transfers_at, delegations_at, with_transfers, with_delegations,
}
use d8x_etherfi.Etherfi.RunFilter.Refines.{run_transfers-run_rows, run_delegates-run_rows}
use d8x_etherfi.Etherfi.RunFilter.InStep.{Reads, Takes, MakesRows, InStep, run_rows-InStep}

abbrev pub IsTransfer : Log → Type 0
IsTransfer (transfer_log t) = Unit {0}
IsTransfer (delegate_log d) = ⊥

abbrev pub IsDelegation : Log → Type 0
IsDelegation (transfer_log t) = ⊥
IsDelegation (delegate_log d) = Unit {0}

module _ {F : Type 0} (geth : Geth) (history : List Log) (app : App F) (db : Db) where
  -- The table of transfers, or that of delegations, is in step with the chain.
  abbrev pub TransfersSynced : Type 0
  TransfersSynced = InStep (transfers geth app) history (transfers_at (app, db))

  abbrev pub DelegationsSynced : Type 0
  DelegationsSynced = InStep (delegations geth app) history (delegations_at (app, db))

-- The blocks up to which the tables are known.
module _ {F : Type 0} (geth : Geth) (app : App F) (db : Db) where
  abbrev pub transfers_known : ℕ
  transfers_known = known (transfers geth app) (transfers_at (app, db))

  abbrev pub delegations_known : ℕ
  delegations_known = known (delegations geth app) (delegations_at (app, db))

  pub transfers-MakesRows : MakesRows (transfers geth app) IsTransfer app.chain_id
  transfers-MakesRows n (transfer_log t) h = (_, refl, refl, refl, refl)
  transfers-MakesRows n (delegate_log d) h = absurd h

  pub delegations-MakesRows : MakesRows (delegations geth app) IsDelegation app.chain_id
  delegations-MakesRows n (transfer_log t) h = absurd h
  delegations-MakesRows n (delegate_log d) h = (_, refl, refl, refl, refl)

module _ {F : Type 0} (geth : Geth) (history : List Log) (head : ℕ) (read : ℕ → Filtered Log)
    (app : App F) (db : Db) where
  -- A run in which no call of the database fails leaves the table of transfers in step, whether the
  -- filterer read all or failed, and leaves everything else but its block.
  pub run_transfers-Synced :
      (answers : Answers TransferRow)
      → Reads IsTransfer history head read
      → Takes (transfers geth app) read answers (transfers_at (app, db))
      → transfers_known geth app db + 1 < 2 ^ 64
      → TransfersSynced geth history app db
      → (n : ℕ) × (rows : List TransferRow) × (run_transfers geth read answers (app, db)
          ≡ some (record app { last_transfers = n }, record db { sh_tkn_transfer = rows }))
        × TransfersSynced geth history
            (record app { last_transfers = n })
            (record db { sh_tkn_transfer = rows })
        × (transfers_known geth
              (record app { last_transfers = n })
              (record db { sh_tkn_transfer = rows })
            ≤ max (transfers_known geth app db) head)
  run_transfers-Synced answers reads db_ok small synced =
      let (n, rows, e, (kept, by)) =
        run_rows-InStep (transfers geth app) IsTransfer history head read reads answers
          (transfers_at (app, db)) db_ok (transfers-MakesRows geth app db) small synced in
      (
        n,
        rows,
        run_transfers-run_rows geth app db read answers ∙ ap (with_transfers (app, db)) e,
        kept,
        by,
      )

  pub run_delegates-Synced :
      (answers : Answers DelegateRow)
      → Reads IsDelegation history head read
      → Takes (delegations geth app) read answers (delegations_at (app, db))
      → delegations_known geth app db + 1 < 2 ^ 64
      → DelegationsSynced geth history app db
      → (n : ℕ) × (rows : List DelegateRow) × (run_delegates geth read answers (app, db)
          ≡ some (record app { last_delegates = n }, record db { delegates = rows }))
        × DelegationsSynced geth history
            (record app { last_delegates = n })
            (record db { delegates = rows })
        × (delegations_known geth
              (record app { last_delegates = n })
              (record db { delegates = rows })
            ≤ max (delegations_known geth app db) head)
  run_delegates-Synced answers reads db_ok small synced =
      let (n, rows, e, (kept, by)) =
        run_rows-InStep (delegations geth app) IsDelegation history head read reads answers
          (delegations_at (app, db)) db_ok (delegations-MakesRows geth app db) small synced in
      (
        n,
        rows,
        run_delegates-run_rows geth app db read answers ∙ ap (with_delegations (app, db)) e,
        kept,
        by,
      )
