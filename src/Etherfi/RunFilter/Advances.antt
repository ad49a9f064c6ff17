-- ===== src/Etherfi/RunFilter/Advances.antt =====
-- The block of `LastBlockTo` after an insert.
use d8x_etherfi.Base.{◌≡◌, ap, sym, none, some}
use mathlib.Core.Option.{some-injective}
use d8x_etherfi.Chain.{Geth}
use d8x_etherfi.Filterer.{Log, Filtered}
use d8x_etherfi.Etherfi.App.{App}
use d8x_etherfi.Etherfi.Store.{
  Db, TransferRow, DelegateRow, Inserted, all_in, failed, wrong_type, db_insert_sh_tkn_transfer,
  db_insert_delegates,
}
use d8x_etherfi.Etherfi.RunFilter.{Answers, finish, store_transfers, store_delegates}

module _ {F : Type 0} (geth : Geth) where
  finish_app :
      (app a : App F) (d : Db) (r : Inserted × Db) → finish geth app r ≡ some (a, d) → a ≡ app
  finish_app app a d (all_in, db) e = ap (λ p. p.0) (sym (some-injective _ _ e))
  finish_app app a d (failed f, db) e = ap (λ p. p.0) (sym (some-injective _ _ e))
  finish_app app a d (wrong_type, db) e = cc

  module _ (found : Filtered Log) (app a : App F) (db d : Db) where
    -- When the filterer has read transfers, whatever the database makes of them, a goroutine that
    -- does not panic leaves its block at the one that the filterer reached, and the block of the
    -- delegations as it was.
    store_transfers_lem :
        (answers : Answers TransferRow)
        → found.failure ≡ none
        → store_transfers geth found answers (app, db) ≡ some (a, d)
        → (a.last_transfers ≡ found.block) × (a.last_delegates ≡ app.last_delegates)
    unfolding store_transfers
    store_transfers_lem answers q e =
        let p =
          finish_app (record app { last_transfers = found.block }) a d
            (db_insert_sh_tkn_transfer app geth answers.prepare_failure answers.exec found.logs
              found.block db)
            (rw (q, store_transfers) at e) in
        (ap (λ (x : App F). x.last_transfers) p, ap (λ (x : App F). x.last_delegates) p)

    -- When the filterer has read delegations, whatever the database makes of them, a goroutine that
    -- does not panic leaves its block at the one that the filterer reached, and the block of the
    -- transfers as it was.
    store_delegates_lem :
        (answers : Answers DelegateRow)
        → found.failure ≡ none
        → store_delegates geth found answers (app, db) ≡ some (a, d)
        → (a.last_delegates ≡ found.block) × (a.last_transfers ≡ app.last_transfers)
    unfolding store_delegates
    store_delegates_lem answers q e =
        let p =
          finish_app (record app { last_delegates = found.block }) a d
            (db_insert_delegates app geth answers.prepare_failure answers.exec found.logs
              found.block db)
            (rw (q, store_delegates) at e) in
        (ap (λ (x : App F). x.last_delegates) p, ap (λ (x : App F). x.last_transfers) p)
