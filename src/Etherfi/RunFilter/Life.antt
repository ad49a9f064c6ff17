-- ===== src/Etherfi/RunFilter/Life.antt =====
-- The life of the service: runs of both goroutines, in any order, growth of the chain between them,
-- and restarts.
use d8x_etherfi.Base.{ℕ, ◌+◌, ◌^◌, ◌≤◌, ◌<◌, ◌≡◌, sym, ◌∙◌, List, ◌++◌, some, max, All, arith}
use mathlib.Core.Path.{subst}
use mathlib.Core.Option.{some-injective}
use d8x_etherfi.Chain.{Geth}
use d8x_etherfi.Filterer.{Log, Filtered}
use d8x_etherfi.Filterer.Events.{log_block}
use d8x_etherfi.Etherfi.App.{App}
use d8x_etherfi.Etherfi.Store.{Db, TransferRow, DelegateRow}
use d8x_etherfi.Etherfi.RunFilter.{Answers, run_transfers, run_delegates}
use d8x_etherfi.Etherfi.RunFilter.Views.{transfers, delegations, transfers_at, delegations_at}
use d8x_etherfi.Etherfi.RunFilter.InStep.{Reads, Takes}
use d8x_etherfi.Etherfi.RunFilter.Changes.{InStep-grows, InStep-restart}
use d8x_etherfi.Etherfi.RunFilter.Synced.{
  IsTransfer, IsDelegation, TransfersSynced, DelegationsSynced, transfers_known, delegations_known,
  run_transfers-Synced, run_delegates-Synced,
}

-- The chain up to its head, the service's memory and its database.
pub record World (F : Type 0) : Type 0 where
  pub head : ℕ
  pub transfers : List Log
  pub delegations : List Log
  pub app : App F
  pub db : Db

-- A new process starts with nothing cached.
abbrev pub restarted : {F : Type 0} → App F → App F
restarted app = record app { last_delegates = 0; last_transfers = 0 }

module _ {F : Type 0} (geth : Geth) where
  -- A run stands between two states of the chain: while it reads, nothing is added.
  pub data Step : World F → World F → Type 0 where
    grow :
        (w : World F) (head : ℕ) (ts ds : List Log)
        → w.head ≤ head
        → head + 1 < 2 ^ 64
        → All (λ l. w.head < log_block l) ts
        → All (λ l. w.head < log_block l) ds
        → Step w (record w {
          head = head;
          transfers = w.transfers ++ ts;
          delegations = w.delegations ++ ds;
        })
    sync_transfers :
        (w : World F) (read : ℕ → Filtered Log) (answers : Answers TransferRow) (a : App F) (d : Db)
        → Reads IsTransfer w.transfers w.head read
        → Takes (transfers geth w.app) read answers (transfers_at (w.app, w.db))
        → run_transfers geth read answers (w.app, w.db) ≡ some (a, d)
        → Step w (record w { app = a; db = d })
    sync_delegates :
        (w : World F) (read : ℕ → Filtered Log) (answers : Answers DelegateRow) (a : App F) (d : Db)
        → Reads IsDelegation w.delegations w.head read
        → Takes (delegations geth w.app) read answers (delegations_at (w.app, w.db))
        → run_delegates geth read answers (w.app, w.db) ≡ some (a, d)
        → Step w (record w { app = a; db = d })
    restart : (w : World F) → Step w (record w { app = restarted w.app })

  pub data Reach (w : World F) : World F → Type 0 where
    here : Reach w w
    next : {u v : World F} → Reach w u → Step u v → Reach w v

  -- Both tables are in step with the chain, and know no block that is not there yet.
  pub record IsSynced (w : World F) : Type 0 where
    pub transfers_synced : TransfersSynced geth w.transfers w.app w.db
    pub delegations_synced : DelegationsSynced geth w.delegations w.app w.db
    pub transfers_by : transfers_known geth w.app w.db ≤ max w.app.genesis w.head
    pub delegations_by : delegations_known geth w.app w.db ≤ max w.app.genesis w.head
    pub fits : max w.app.genesis w.head + 1 < 2 ^ 64

  grow-IsSynced :
      (w : World F) (head : ℕ) (ts ds : List Log)
      → IsSynced w
      → w.head ≤ head
      → head + 1 < 2 ^ 64
      → All (λ l. w.head < log_block l) ts
      → All (λ l. w.head < log_block l) ds
      → IsSynced (record w {
        head = head;
        transfers = w.transfers ++ ts;
        delegations = w.delegations ++ ds;
      })
  grow-IsSynced w head ts ds s h small new_ts new_ds = record {
    transfers_synced =
        InStep-grows (transfers geth w.app) w.transfers ts w.head (transfers_at (w.app, w.db))
          s.transfers_synced s.transfers_by new_ts;
    delegations_synced =
        InStep-grows (delegations geth w.app) w.delegations ds w.head (delegations_at (w.app, w.db))
          s.delegations_synced s.delegations_by new_ds;
    transfers_by = omega (arith, s.transfers_by);
    delegations_by = omega (arith, s.delegations_by);
    fits = omega (arith, s.fits);
  }

  restart-IsSynced : (w : World F) → IsSynced w → IsSynced (record w { app = restarted w.app })
  restart-IsSynced w s =
      let (t, tk) =
        InStep-restart (transfers geth w.app) w.transfers (transfers_at (w.app, w.db))
          s.transfers_synced in
      let (d, dk) =
        InStep-restart (delegations geth w.app) w.delegations (delegations_at (w.app, w.db))
          s.delegations_synced in
      record {
        transfers_synced = t;
        delegations_synced = d;
        transfers_by = omega (arith, s.transfers_by, tk);
        delegations_by = omega (arith, s.delegations_by, dk);
        fits = s.fits;
      }

  -- What a run leaves is the state with the rows and the block that it has written.
  sync_transfers-IsSynced :
      (w : World F) (read : ℕ → Filtered Log) (answers : Answers TransferRow) (st : App F × Db)
      → IsSynced w
      → Reads IsTransfer w.transfers w.head read
      → Takes (transfers geth w.app) read answers (transfers_at (w.app, w.db))
      → run_transfers geth read answers (w.app, w.db) ≡ some st
      → IsSynced (record w { app = st.0; db = st.1 })
  sync_transfers-IsSynced w read answers st s reads db_ok e =
      let (n, rows, run, synced, by) =
        run_transfers-Synced geth w.transfers w.head read w.app w.db answers reads db_ok
          (omega (arith, s.transfers_by, s.fits)) s.transfers_synced in
      subst (λ st. IsSynced (record w { app = st.0; db = st.1 }))
        (some-injective
          (record w.app { last_transfers = n }, record w.db { sh_tkn_transfer = rows }) st
          (sym run ∙ e))
        (record {
          transfers_synced = synced;
          delegations_synced = s.delegations_synced;
          transfers_by = omega (arith, by, s.transfers_by);
          delegations_by = s.delegations_by;
          fits = s.fits;
        })

  sync_delegates-IsSynced :
      (w : World F) (read : ℕ → Filtered Log) (answers : Answers DelegateRow) (st : App F × Db)
      → IsSynced w
      → Reads IsDelegation w.delegations w.head read
      → Takes (delegations geth w.app) read answers (delegations_at (w.app, w.db))
      → run_delegates geth read answers (w.app, w.db) ≡ some st
      → IsSynced (record w { app = st.0; db = st.1 })
  sync_delegates-IsSynced w read answers st s reads db_ok e =
      let (n, rows, run, synced, by) =
        run_delegates-Synced geth w.delegations w.head read w.app w.db answers reads db_ok
          (omega (arith, s.delegations_by, s.fits)) s.delegations_synced in
      subst (λ st. IsSynced (record w { app = st.0; db = st.1 }))
        (some-injective (record w.app { last_delegates = n }, record w.db { delegates = rows }) st
          (sym run ∙ e))
        (record {
          transfers_synced = s.transfers_synced;
          delegations_synced = synced;
          transfers_by = s.transfers_by;
          delegations_by = omega (arith, by, s.delegations_by);
          fits = s.fits;
        })

  Step-IsSynced : {w v : World F} → IsSynced w → Step w v → IsSynced v
  Step-IsSynced s (grow w head ts ds h small new_ts new_ds) =
      grow-IsSynced w head ts ds s h small new_ts new_ds
  Step-IsSynced s (sync_transfers w read answers a d reads db_ok e) =
      sync_transfers-IsSynced w read answers (a, d) s reads db_ok e
  Step-IsSynced s (sync_delegates w read answers a d reads db_ok e) =
      sync_delegates-IsSynced w read answers (a, d) s reads db_ok e
  Step-IsSynced s (restart w) = restart-IsSynced w s

  -- Runs of both goroutines, growth of the chain and restarts of the service, one after the other in
  -- whatever order. The chain grows only between the runs: in each run the nodes answer from the
  -- history up to the head at which it has started, or fail; no call of the database fails, so that it
  -- refuses none of the rows found; and a head and its successor are numbers of 64 bits. Then tables in
  -- step with the chain stay so: each holds the logs after genesis up to the block that it is known
  -- for, each once and in order.
  pub Reach-IsSynced : {w v : World F} → IsSynced w → Reach w v → IsSynced v
  Reach-IsSynced s here = s
  Reach-IsSynced s (next r step) = Step-IsSynced (Reach-IsSynced s r) step
