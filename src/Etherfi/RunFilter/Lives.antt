-- ===== src/Etherfi/RunFilter/Lives.antt =====
-- The life of the service beside a chain that grows at any time, also while a goroutine of
-- runfilter.go reads: a log may then be read twice, and stored twice.
use d8x_etherfi.Base.{ℕ, ◌+◌, ◌^◌, ◌≤◌, ◌<◌, ◌≡◌, sym, ap, ◌∙◌, List, ◌++◌, some, max, All, arith}
use mathlib.Core.Path.{subst}
use mathlib.Core.Option.{some-injective}
use d8x_etherfi.Chain.{Geth}
use d8x_etherfi.Filterer.{Log, Filtered}
use d8x_etherfi.Filterer.Events.{log_block}
use d8x_etherfi.Etherfi.App.{App}
use d8x_etherfi.Etherfi.Store.{Db, TransferRow, DelegateRow}
use d8x_etherfi.Etherfi.RunFilter.{Answers, run_transfers, run_delegates}
use d8x_etherfi.Etherfi.RunFilter.Views.{
  transfers, delegations, transfers_at, delegations_at, with_transfers, with_delegations,
}
use d8x_etherfi.Etherfi.RunFilter.Refines.{run_transfers-run_rows, run_delegates-run_rows}
use d8x_etherfi.Etherfi.RunFilter.InStep.{Takes}
use d8x_etherfi.Etherfi.RunFilter.Caught.{
  Sees, Caught, run_rows-Caught, Caught-grows, Caught-restart,
}
use d8x_etherfi.Etherfi.RunFilter.Synced.{
  IsTransfer, IsDelegation, transfers_known, delegations_known, transfers-MakesRows,
  delegations-MakesRows,
}
use d8x_etherfi.Etherfi.RunFilter.Life.{World, restarted}

module _ {F : Type 0} (geth : Geth) where
  -- A run has asked for the head at some time, and reads with its last, open window what the chain
  -- has up to now: `asked` is a block up to the present head, and a run that the chain outgrows while
  -- it reads is one that reads the grown chain with the head of before.
  pub data Change : World F → World F → Type 0 where
    grow :
        (w : World F) (head : ℕ) (ts ds : List Log)
        → w.head ≤ head
        → head + 1 < 2 ^ 64
        → All (λ l. w.head < log_block l) ts
        → All (λ l. w.head < log_block l) ds
        → Change w (record w {
          head = head;
          transfers = w.transfers ++ ts;
          delegations = w.delegations ++ ds;
        })
    sync_transfers :
        (w : World F) (asked : ℕ) (read : ℕ → Filtered Log) (answers : Answers TransferRow)
        (a : App F) (d : Db)
        → asked ≤ w.head
        → Sees IsTransfer w.transfers asked read
        → Takes (transfers geth w.app) read answers (transfers_at (w.app, w.db))
        → run_transfers geth read answers (w.app, w.db) ≡ some (a, d)
        → Change w (record w { app = a; db = d })
    sync_delegates :
        (w : World F) (asked : ℕ) (read : ℕ → Filtered Log) (answers : Answers DelegateRow)
        (a : App F) (d : Db)
        → asked ≤ w.head
        → Sees IsDelegation w.delegations asked read
        → Takes (delegations geth w.app) read answers (delegations_at (w.app, w.db))
        → run_delegates geth read answers (w.app, w.db) ≡ some (a, d)
        → Change w (record w { app = a; db = d })
    restart : (w : World F) → Change w (record w { app = restarted w.app })

  pub data Reach (w : World F) : World F → Type 0 where
    born : Reach w w
    after : {u v : World F} → Reach w u → Change u v → Reach w v

  -- Both tables have caught up with the chain, and know no block that is not there yet.
  pub record IsCaught (w : World F) : Type 0 where
    pub transfers_caught : Caught (transfers geth w.app) w.transfers (transfers_at (w.app, w.db))
    pub delegations_caught :
        Caught (delegations geth w.app) w.delegations (delegations_at (w.app, w.db))
    pub transfers_by : transfers_known geth w.app w.db ≤ max w.app.genesis w.head
    pub delegations_by : delegations_known geth w.app w.db ≤ max w.app.genesis w.head
    pub fits : max w.app.genesis w.head + 1 < 2 ^ 64

  sync_transfers-IsCaught :
      (w : World F) (asked : ℕ) (read : ℕ → Filtered Log) (answers : Answers TransferRow)
      (st : App F × Db)
      → IsCaught w
      → asked ≤ w.head
      → Sees IsTransfer w.transfers asked read
      → Takes (transfers geth w.app) read answers (transfers_at (w.app, w.db))
      → run_transfers geth read answers (w.app, w.db) ≡ some st
      → IsCaught (record w { app = st.0; db = st.1 })
  sync_transfers-IsCaught w asked read answers st s at sees db_ok e =
      let (n, rows, run, (caught, by)) =
        run_rows-Caught (transfers geth w.app) IsTransfer w.transfers asked read sees answers
          (transfers_at (w.app, w.db)) db_ok (transfers-MakesRows geth w.app w.db)
          (omega (arith, s.transfers_by, s.fits)) s.transfers_caught in
      subst (λ st. IsCaught (record w { app = st.0; db = st.1 }))
        (some-injective
          (record w.app { last_transfers = n }, record w.db { sh_tkn_transfer = rows }) st
          (sym (
              run_transfers-run_rows geth w.app w.db read answers
              ∙ ap (with_transfers (w.app, w.db)) run)
            ∙ e))
        (record {
          transfers_caught = caught;
          delegations_caught = s.delegations_caught;
          transfers_by = omega (arith, by, s.transfers_by);
          delegations_by = s.delegations_by;
          fits = s.fits;
        })

  sync_delegates-IsCaught :
      (w : World F) (asked : ℕ) (read : ℕ → Filtered Log) (answers : Answers DelegateRow)
      (st : App F × Db)
      → IsCaught w
      → asked ≤ w.head
      → Sees IsDelegation w.delegations asked read
      → Takes (delegations geth w.app) read answers (delegations_at (w.app, w.db))
      → run_delegates geth read answers (w.app, w.db) ≡ some st
      → IsCaught (record w { app = st.0; db = st.1 })
  sync_delegates-IsCaught w asked read answers st s at sees db_ok e =
      let (n, rows, run, (caught, by)) =
        run_rows-Caught (delegations geth w.app) IsDelegation w.delegations asked read sees answers
          (delegations_at (w.app, w.db)) db_ok (delegations-MakesRows geth w.app w.db)
          (omega (arith, s.delegations_by, s.fits)) s.delegations_caught in
      subst (λ st. IsCaught (record w { app = st.0; db = st.1 }))
        (some-injective (record w.app { last_delegates = n }, record w.db { delegates = rows }) st
          (sym (
              run_delegates-run_rows geth w.app w.db read answers
              ∙ ap (with_delegations (w.app, w.db)) run)
            ∙ e))
        (record {
          transfers_caught = s.transfers_caught;
          delegations_caught = caught;
          transfers_by = s.transfers_by;
          delegations_by = omega (arith, by, s.delegations_by);
          fits = s.fits;
        })

  Change-IsCaught : {w v : World F} → IsCaught w → Change w v → IsCaught v
  Change-IsCaught s (grow w head ts ds h small new_ts new_ds) = record {
    transfers_caught =
        Caught-grows (transfers geth w.app) w.transfers ts w.head (transfers_at (w.app, w.db))
          s.transfers_caught s.transfers_by new_ts;
    delegations_caught =
        Caught-grows (delegations geth w.app) w.delegations ds w.head (delegations_at (w.app, w.db))
          s.delegations_caught s.delegations_by new_ds;
    transfers_by = omega (arith, s.transfers_by);
    delegations_by = omega (arith, s.delegations_by);
    fits = omega (arith, s.fits);
  }
  Change-IsCaught s (sync_transfers w asked read answers a d at sees db_ok e) =
      sync_transfers-IsCaught w asked read answers (a, d) s at sees db_ok e
  Change-IsCaught s (sync_delegates w asked read answers a d at sees db_ok e) =
      sync_delegates-IsCaught w asked read answers (a, d) s at sees db_ok e
  Change-IsCaught s (restart w) =
      let (t, tk) =
        Caught-restart (transfers geth w.app) w.transfers (transfers_at (w.app, w.db))
          s.transfers_caught in
      let (d, dk) =
        Caught-restart (delegations geth w.app) w.delegations (delegations_at (w.app, w.db))
          s.delegations_caught in
      record {
        transfers_caught = t;
        delegations_caught = d;
        transfers_by = omega (arith, s.transfers_by, tk);
        delegations_by = omega (arith, s.delegations_by, dk);
        fits = s.fits;
      }

  -- Whatever happens in a life, both tables have caught up with the chain.
  pub Reach-IsCaught : {w v : World F} → IsCaught w → Reach w v → IsCaught v
  Reach-IsCaught s born = s
  Reach-IsCaught s (after l change) = Change-IsCaught (Reach-IsCaught s l) change
