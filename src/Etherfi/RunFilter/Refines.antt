-- ===== src/Etherfi/RunFilter/Refines.antt =====
-- Both goroutines are runs over their tables, and touch nothing else.
use d8x_etherfi.Base.{
  ℕ, ◌+◌, ◌%◌, ◌^◌, ◌≡◌, refl, ◌∙◌, List, [], ◌∷◌, ◌++◌, Option, none, some, Error, eqb, max, inl,
  inr, Bool-cases, Option-cases,
}
use d8x_etherfi.Base.Int.{ℤ}
use d8x_etherfi.Chain.{Geth}
use d8x_etherfi.Filterer.{Log, Filtered, transfer_log, delegate_log}
use d8x_etherfi.Etherfi.App.{App}
use d8x_etherfi.Etherfi.Store.{
  Db, TransferRow, DelegateRow, Inserted, all_in, failed, wrong_type, max_transfers, max_delegates,
  db_get_delegate_start_block, db_get_sh_tkn_transfer_start_block, db_insert_delegates,
  db_insert_sh_tkn_transfer, insert_transfers, insert_delegates,
}
use d8x_etherfi.Etherfi.RunFilter.{
  Answers, run_delegates, run_transfers, store_delegates, store_transfers, finish,
}
use d8x_etherfi.Etherfi.RunFilter.Table.{
  Cursor, max_block, start_block, insert_rows, finish_rows, store_rows, run_rows,
}
use d8x_etherfi.Etherfi.RunFilter.Views.{
  transfers, delegations, transfers_at, delegations_at, with_transfers, with_delegations,
}

module _ {F : Type 0} (geth : Geth) (app : App F) (to_block : ℕ) where
  insert_transfers-insert_rows :
      (exec : TransferRow → List TransferRow → Option Error) (logs : List Log)
      (rows : List TransferRow)
      → insert_transfers app geth to_block exec logs rows
        ≡ insert_rows (transfers geth app) to_block exec logs rows
  unfolding insert_transfers insert_rows
  insert_transfers-insert_rows exec [] rows = refl
  insert_transfers-insert_rows exec (delegate_log d ∷ logs) rows = refl
  insert_transfers-insert_rows exec (transfer_log t ∷ logs) rows =
      let row : TransferRow = record {
        from = t.from;
        to = t.to;
        block = t.block_nr;
        to_block = to_block;
        sh_tkn = geth.hex app.pool_share_tkn_addr;
        chain_id = app.chain_id;
      } in
      elim (Option-cases (exec row rows)) [
        | inl q ↦
            rw (insert_transfers, insert_rows, q)
              (insert_transfers-insert_rows exec logs (rows ++ row ∷ []))
        | inr (e, q) ↦ rw (insert_transfers, insert_rows, q)
      ]

  insert_delegates-insert_rows :
      (exec : DelegateRow → List DelegateRow → Option Error) (logs : List Log)
      (rows : List DelegateRow)
      → insert_delegates app geth to_block exec logs rows
        ≡ insert_rows (delegations geth app) to_block exec logs rows
  unfolding insert_delegates insert_rows
  insert_delegates-insert_rows exec [] rows = refl
  insert_delegates-insert_rows exec (transfer_log t ∷ logs) rows = refl
  insert_delegates-insert_rows exec (delegate_log d ∷ logs) rows =
      let row : DelegateRow = record {
        addr = d.addr;
        delegate = d.delegate;
        block = d.block_nr;
        index = d.index;
        to_block = to_block;
        chain_id = app.chain_id;
      } in
      elim (Option-cases (exec row rows)) [
        | inl q ↦
            rw (insert_delegates, insert_rows, q)
              (insert_delegates-insert_rows exec logs (rows ++ row ∷ []))
        | inr (e, q) ↦ rw (insert_delegates, insert_rows, q)
      ]

pub max_transfers-max_block :
    {F : Type 0} (geth : Geth) (app : App F) (chain : ℤ) (rows : List TransferRow)
    → max_transfers chain rows ≡ max_block (transfers geth app) chain rows
max_transfers-max_block geth app chain [] = refl
max_transfers-max_block geth app chain (r ∷ rows) = rw (max_transfers-max_block geth app chain rows)

pub max_delegates-max_block :
    {F : Type 0} (geth : Geth) (app : App F) (chain : ℤ) (rows : List DelegateRow)
    → max_delegates chain rows ≡ max_block (delegations geth app) chain rows
max_delegates-max_block geth app chain [] = refl
max_delegates-max_block geth app chain (r ∷ rows) = rw (max_delegates-max_block geth app chain rows)

module _ {F : Type 0} (geth : Geth) (app : App F) (db : Db) where
  finish-with_transfers :
      (n : ℕ) (r : Inserted × List TransferRow)
      → finish geth (record app { last_transfers = n }) (r.0, record db { sh_tkn_transfer = r.1 })
        ≡ with_transfers
            (app, db)
            (finish_rows (transfers geth app) (record (transfers_at (app, db)) { last = n }) r)
  finish-with_transfers n (all_in, rows) = refl
  finish-with_transfers n (failed e, rows) = refl
  finish-with_transfers n (wrong_type, rows) = refl

  finish-with_delegations :
      (n : ℕ) (r : Inserted × List DelegateRow)
      → finish geth (record app { last_delegates = n }) (r.0, record db { delegates = r.1 })
        ≡ with_delegations
            (app, db)
            (finish_rows (delegations geth app) (record (delegations_at (app, db)) { last = n }) r)
  finish-with_delegations n (all_in, rows) = refl
  finish-with_delegations n (failed e, rows) = refl
  finish-with_delegations n (wrong_type, rows) = refl

  store_transfers-store_rows :
      (found : Filtered Log) (answers : Answers TransferRow)
      → store_transfers geth found answers (app, db)
        ≡ with_transfers
            (app, db)
            (store_rows (transfers geth app) found answers (transfers_at (app, db)))
  unfolding store_transfers store_rows db_insert_sh_tkn_transfer
  store_transfers-store_rows found answers = elim (Option-cases found.failure) [
    | inr (e, q) ↦ rw (store_transfers, store_rows, q)
    | inl q ↦ elim (Option-cases answers.prepare_failure) [
      | inr (e, p) ↦ rw (store_transfers, store_rows, db_insert_sh_tkn_transfer, q, p)
      | inl p ↦
          rw (store_transfers, store_rows, db_insert_sh_tkn_transfer, q, p)
            (rw
              (insert_transfers-insert_rows geth app found.block answers.exec found.logs
                db.sh_tkn_transfer)
              (finish-with_transfers found.block (
                insert_rows (transfers geth app) found.block answers.exec found.logs
                  db.sh_tkn_transfer)))
    ]
  ]

  store_delegates-store_rows :
      (found : Filtered Log) (answers : Answers DelegateRow)
      → store_delegates geth found answers (app, db)
        ≡ with_delegations
            (app, db)
            (store_rows (delegations geth app) found answers (delegations_at (app, db)))
  unfolding store_delegates store_rows db_insert_delegates
  store_delegates-store_rows found answers = elim (Option-cases found.failure) [
    | inr (e, q) ↦ rw (store_delegates, store_rows, q)
    | inl q ↦ elim (Option-cases answers.prepare_failure) [
      | inr (e, p) ↦ rw (store_delegates, store_rows, db_insert_delegates, q, p)
      | inl p ↦
          rw (store_delegates, store_rows, db_insert_delegates, q, p)
            (rw
              (insert_delegates-insert_rows geth app found.block answers.exec found.logs
                db.delegates)
              (finish-with_delegations found.block (
                insert_rows (delegations geth app) found.block answers.exec found.logs
                  db.delegates)))
    ]
  ]

  with_transfers_again :
      (n : ℕ) (c : Option (Cursor TransferRow))
      → with_transfers (record app { last_transfers = n }, db) c ≡ with_transfers (app, db) c
  with_transfers_again n none = refl
  with_transfers_again n (some c) = refl

  with_delegations_again :
      (n : ℕ) (c : Option (Cursor DelegateRow))
      → with_delegations (record app { last_delegates = n }, db) c ≡ with_delegations (app, db) c
  with_delegations_again n none = refl
  with_delegations_again n (some c) = refl

module _ {F : Type 0} (geth : Geth) (app : App F) (db : Db) where
  -- Whatever the filterer and the database answer, the goroutine that stores transfers is a run over
  -- the table of transfers and its block, and changes nothing else.
  pub run_transfers-run_rows :
      (read : ℕ → Filtered Log) (answers : Answers TransferRow)
      → run_transfers geth read answers (app, db)
        ≡ with_transfers
            (app, db)
            (run_rows (transfers geth app) read answers (transfers_at (app, db)))
  unfolding run_transfers run_rows start_block db_get_sh_tkn_transfer_start_block
  run_transfers-run_rows read answers =
      let m = max_transfers-max_block geth app app.chain_id db.sh_tkn_transfer in
      let n = max app.genesis (max_block (transfers geth app) app.chain_id db.sh_tkn_transfer) in
      let keeps = store_transfers-store_rows geth app db in
      elim (Bool-cases (eqb app.last_transfers 0)) [
        | inr q ↦
            rw (run_transfers, run_rows, start_block, db_get_sh_tkn_transfer_start_block, q)
              (keeps (read ((app.last_transfers + 1) % 2 ^ 64)) answers)
        | inl q ↦ elim (Option-cases answers.start_failure) [
          | inr (e, p) ↦
              rw (run_transfers, run_rows, start_block, db_get_sh_tkn_transfer_start_block, q, p)
                (keeps (read ((0 + 1) % 2 ^ 64)) answers)
          | inl p ↦
              rw (run_transfers, run_rows, start_block, db_get_sh_tkn_transfer_start_block, q, p, m)
                (store_transfers-store_rows geth (record app { last_transfers = n }) db
                    (read ((n + 1) % 2 ^ 64)) answers
                  ∙ with_transfers_again geth app db n _)
        ]
      ]

  -- Whatever the filterer and the database answer, the goroutine that stores delegations is a run over
  -- the table of delegations and its block, and changes nothing else.
  pub run_delegates-run_rows :
      (read : ℕ → Filtered Log) (answers : Answers DelegateRow)
      → run_delegates geth read answers (app, db)
        ≡ with_delegations
            (app, db)
            (run_rows (delegations geth app) read answers (delegations_at (app, db)))
  unfolding run_delegates run_rows start_block db_get_delegate_start_block
  run_delegates-run_rows read answers =
      let m = max_delegates-max_block geth app app.chain_id db.delegates in
      let n = max app.genesis (max_block (delegations geth app) app.chain_id db.delegates) in
      let keeps = store_delegates-store_rows geth app db in
      elim (Bool-cases (eqb app.last_delegates 0)) [
        | inr q ↦
            rw (run_delegates, run_rows, start_block, db_get_delegate_start_block, q)
              (keeps (read ((app.last_delegates + 1) % 2 ^ 64)) answers)
        | inl q ↦ elim (Option-cases answers.start_failure) [
          | inr (e, p) ↦
              rw (run_delegates, run_rows, start_block, db_get_delegate_start_block, q, p)
                (keeps (read ((0 + 1) % 2 ^ 64)) answers)
          | inl p ↦
              rw (run_delegates, run_rows, start_block, db_get_delegate_start_block, q, p, m)
                (store_delegates-store_rows geth (record app { last_delegates = n }) db
                    (read ((n + 1) % 2 ^ 64)) answers
                  ∙ with_delegations_again geth app db n _)
        ]
      ]
