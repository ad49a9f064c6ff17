-- ===== src/Tests/Life.antt =====
-- A short life of the service.
use d8x_etherfi.Base.{
  ℕ, ◌≡◌, refl, List, [], ◌∷◌, none, some, arith, if◌then◌else◌, leb, true, false,
}
use d8x_etherfi.Base.Int.{ℤ, pos}
use d8x_etherfi.Filterer.{Log, Filtered, transfer_log}
use d8x_etherfi.Filterer.Window.{within}
use d8x_etherfi.Filterer.Events.{log_block}
use d8x_etherfi.Etherfi.Store.{
  Db, TransferRow, db_get_sh_tkn_transfer_start_block, db_insert_sh_tkn_transfer, insert_transfers,
}
use d8x_etherfi.Etherfi.RunFilter.{Answers, run_transfers, store_transfers}
use d8x_etherfi.Etherfi.RunFilter.Table.{run_rows}
use d8x_etherfi.Etherfi.RunFilter.Refines.{run_transfers-run_rows}
use d8x_etherfi.Etherfi.RunFilter.Views.{with_transfers, transfers_at, delegations_at}
use d8x_etherfi.Etherfi.RunFilter.Views
use d8x_etherfi.Etherfi.RunFilter.InStep.{Reads, Takes}
use d8x_etherfi.Etherfi.RunFilter.Synced.{IsTransfer}
use d8x_etherfi.Etherfi.RunFilter.Life.{
  World, grow, sync_transfers, restart, Reach, here, next, IsSynced, Reach-IsSynced,
}
use d8x_etherfi.Tests.World.{geth, app, text_a, text_b}

-- Two transfers.
abbrev pub history : List Log
history =
    transfer_log (record { from = text_a; to = text_b; block_nr = pos 6 })
    ∷ transfer_log (record { from = text_b; to = text_a; block_nr = pos 9 })
    ∷ []

abbrev read : ℕ → Filtered Log
read start =
    if leb start 20
    then record { logs = within log_block start none history; block = 20; failure = none }
    else record { logs = []; block = 0; failure = some "endblock must be after startblock" }

abbrev pub from_db : Answers TransferRow
from_db = record { start_failure = none; prepare_failure = none; exec = λ r rows. none }

read-Reads : Reads IsTransfer history 20 read
read-Reads = record {
  sorted = ((omega arith, tt), (tt, tt));
  kind = (tt, (tt, tt));
  up_to_head = (omega arith, (omega arith, tt));
  all_or_none =
      λ start h. let in_time : leb start 20 ≡ true = ground arith in rw in_time (refl, refl);
  too_late = λ start h.
      let late : leb start 20 ≡ false = ground arith in
      ("endblock must be after startblock", rw late refl);
}

abbrev pub first_world : World ℤ
first_world = record {
  head = 5;
  transfers = [];
  delegations = [];
  app = app;
  db = record { sh_tkn_transfer = []; delegates = [] };
}

first-IsSynced : IsSynced geth first_world
first-IsSynced = record {
  transfers_synced = record { rows_are = refl; past_genesis = omega arith; dated = tt };
  delegations_synced = record { rows_are = refl; past_genesis = omega arith; dated = tt };
  transfers_by = omega arith;
  delegations_by = omega arith;
  fits = omega arith;
}

abbrev pub grown_world : World ℤ
grown_world = record first_world { head = 20; transfers = history }

abbrev stored_db : Db
stored_db = record {
  sh_tkn_transfer =
      record {
        from = text_a;
        to = text_b;
        block = pos 6;
        to_block = 20;
        sh_tkn = b's' ∷ [];
        chain_id = pos 42;
      }
      ∷ record {
        from = text_b;
        to = text_a;
        block = pos 9;
        to_block = 20;
        sh_tkn = b's' ∷ [];
        chain_id = pos 42;
      }
      ∷ [];
  delegates = [];
}

stored :
    run_transfers geth read from_db (app, record { sh_tkn_transfer = []; delegates = [] })
    ≡ some (record app { last_transfers = 20 }, stored_db)
unfolding run_transfers store_transfers db_get_sh_tkn_transfer_start_block db_insert_sh_tkn_transfer
    insert_transfers
stored = refl

transfers_run-Takes :
    Takes
      (Views.transfers geth app)
      read
      from_db
      (transfers_at (app, record { sh_tkn_transfer = []; delegates = [] }))
transfers_run-Takes = record {
  starts = refl;
  prepares = refl;
  accepts = λ r e. (refl, λ r' e'. (refl, tt));
}

-- The chain grows, the transfers are stored, and the service starts again.
lived : Reach geth first_world (record grown_world { app = app; db = stored_db })
lived =
    next
      (next
        (next here (
          grow first_world 20 history [] (omega arith) (omega arith)
            (omega arith, (omega arith, tt)) tt))
        (sync_transfers grown_world read from_db (record app { last_transfers = 20 }) stored_db
          read-Reads transfers_run-Takes stored))
      (restart (record grown_world { app = record app { last_transfers = 20 }; db = stored_db }))

Reach-IsSynced_example : IsSynced geth (record grown_world { app = app; db = stored_db })
Reach-IsSynced_example = Reach-IsSynced geth first-IsSynced lived

run_transfers-run_rows_example :
    run_transfers geth read from_db (app, stored_db)
    ≡ with_transfers
        (app, stored_db)
        (run_rows (Views.transfers geth app) read from_db (transfers_at (app, stored_db)))
run_transfers-run_rows_example = run_transfers-run_rows geth app stored_db read from_db
