-- ===== src/Etherfi/RunFilter/Views.antt =====
-- The two tables as abstract ones, and the part of the state that each goroutine has.
use d8x_etherfi.Base.{ℕ, Option, none, some}
use d8x_etherfi.Chain.{Geth}
use d8x_etherfi.Filterer.{Log, transfer_log, delegate_log}
use d8x_etherfi.Etherfi.App.{App}
use d8x_etherfi.Etherfi.Store.{Db, TransferRow, DelegateRow}
use d8x_etherfi.Etherfi.RunFilter.Table.{Table, Cursor}

module _ {F : Type 0} (geth : Geth) (app : App F) where
  abbrev pub transfer_row : ℕ → Log → Option TransferRow
  transfer_row to_block (delegate_log d) = none
  transfer_row to_block (transfer_log t) = some (record {
    from = t.from;
    to = t.to;
    block = t.block_nr;
    to_block = to_block;
    sh_tkn = geth.hex app.pool_share_tkn_addr;
    chain_id = app.chain_id;
  })

  abbrev pub delegate_row : ℕ → Log → Option DelegateRow
  delegate_row to_block (transfer_log t) = none
  delegate_row to_block (delegate_log d) = some (record {
    addr = d.addr;
    delegate = d.delegate;
    block = d.block_nr;
    index = d.index;
    to_block = to_block;
    chain_id = app.chain_id;
  })

  abbrev pub transfers : Table TransferRow
  transfers = record {
    row = transfer_row;
    log_of = λ r. transfer_log (record { from = r.from; to = r.to; block_nr = r.block });
    to_block = λ r. r.to_block;
    chain_id = λ r. r.chain_id;
  }

  abbrev pub delegations : Table DelegateRow
  delegations = record {
    row = delegate_row;
    log_of = λ r.
        delegate_log
          (record { addr = r.addr; delegate = r.delegate; index = r.index; block_nr = r.block });
    to_block = λ r. r.to_block;
    chain_id = λ r. r.chain_id;
  }

-- The part of the state that each goroutine has, and the state with that part changed.
module _ {F : Type 0} where
  abbrev pub transfers_at : App F × Db → Cursor TransferRow
  transfers_at (app, db) = record {
    genesis = app.genesis;
    chain = app.chain_id;
    last = app.last_transfers;
    rows = db.sh_tkn_transfer;
  }

  abbrev pub delegations_at : App F × Db → Cursor DelegateRow
  delegations_at (app, db) = record {
    genesis = app.genesis;
    chain = app.chain_id;
    last = app.last_delegates;
    rows = db.delegates;
  }

  abbrev pub with_transfers : App F × Db → Option (Cursor TransferRow) → Option (App F × Db)
  with_transfers (app, db) none = none
  with_transfers (app, db) (some c) =
      some (record app { last_transfers = c.last }, record db { sh_tkn_transfer = c.rows })

  abbrev pub with_delegations : App F × Db → Option (Cursor DelegateRow) → Option (App F × Db)
  with_delegations (app, db) none = none
  with_delegations (app, db) (some c) =
      some (record app { last_delegates = c.last }, record db { delegates = c.rows })
