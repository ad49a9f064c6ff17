-- ===== src/Tests/Lives.antt =====
-- A life of the service in which the chain grows while a goroutine reads.
use d8x_etherfi.Base.{
  ℕ, ◌≡◌, refl, List, [], ◌∷◌, none, some, All, arith, if◌then◌else◌, leb, true, false, ◌≤◌,
}
use d8x_etherfi.Base.Int.{ℤ, pos}
use d8x_etherfi.Filterer.{Log, Filtered, delegate_log}
use d8x_etherfi.Filterer.Window.{within}
use d8x_etherfi.Filterer.Events.{log_block}
use d8x_etherfi.Etherfi.Store.{
  Db, TransferRow, DelegateRow, db_get_sh_tkn_transfer_start_block, db_insert_sh_tkn_transfer,
  insert_transfers, db_get_delegate_start_block, db_insert_delegates, insert_delegates,
  db_get_latest_block,
}
use d8x_etherfi.Etherfi.Store.Keys.{delegates_pkey}
use d8x_etherfi.Etherfi.RunFilter.{
  Answers, run_transfers, store_transfers, run_delegates, store_delegates,
}
use d8x_etherfi.Etherfi.RunFilter.Views.{transfers_at, delegations_at}
use d8x_etherfi.Etherfi.RunFilter.Views
use d8x_etherfi.Etherfi.RunFilter.InStep.{Takes}
use d8x_etherfi.Etherfi.RunFilter.Synced.{IsTransfer, IsDelegation}
use d8x_etherfi.Etherfi.RunFilter.Caught.{Sees}
use d8x_etherfi.Etherfi.RunFilter.Life.{World}
use d8x_etherfi.Etherfi.RunFilter.Lives.{
  grow, sync_transfers, sync_delegates, Reach, born, after, IsCaught,
}
use d8x_etherfi.Etherfi.RunFilter.Answered.{AnsweredAt, Reach-AnsweredAt}
use d8x_etherfi.Tests.World.{geth, app, text_a, text_b}
use d8x_etherfi.Tests.Life.{history, from_db, first_world, grown_world}

-- A filterer that was given a head when it asked for it, and reads what the chain has now.
abbrev read_at : List Log → ℕ → ℕ → Filtered Log
read_at logs asked start =
    if leb start asked
    then record { logs = within log_block start none logs; block = asked; failure = none }
    else record { logs = []; block = 0; failure = some "endblock must be after startblock" }

read_at-Sees :
    (IsKind : Log → Type 0) (logs : List Log) (asked : ℕ)
    → All IsKind logs
    → Sees IsKind logs asked (read_at logs asked)
read_at-Sees IsKind logs asked kind = record {
  kind = kind;
  all_or_none =
      λ start h. let in_time : leb start asked ≡ true = ground arith in rw in_time (refl, refl);
  too_late = λ start h.
      let late : leb start asked ≡ false = ground arith in
      ("endblock must be after startblock", rw late refl);
}

first-IsCaught : IsCaught geth first_world
first-IsCaught = record {
  transfers_caught = record { rows_of = tt; all_of = tt; past_genesis = omega arith };
  delegations_caught = record { rows_of = tt; all_of = tt; past_genesis = omega arith };
  transfers_by = omega arith;
  delegations_by = omega arith;
  fits = omega arith;
}

-- A delegation for the strategy.
abbrev delegated : List Log
delegated =
    delegate_log (record { addr = text_b; delegate = text_a; index = pos 2; block_nr = pos 7 }) ∷ []

abbrev delegated_world : World ℤ
delegated_world = record grown_world { delegations = delegated }

-- A database with the primary key of the table.
abbrev delegates_from_db : Answers DelegateRow
delegates_from_db = record {
  start_failure = none;
  prepare_failure = none;
  exec = delegates_pkey "duplicate key value";
}

-- The rows of the two transfers, read up to a block.
abbrev first_row : ℕ → TransferRow
first_row to_block = record {
  from = text_a;
  to = text_b;
  block = pos 6;
  to_block = to_block;
  sh_tkn = b's' ∷ [];
  chain_id = pos 42;
}

abbrev second_row : ℕ → TransferRow
second_row to_block = record {
  from = text_b;
  to = text_a;
  block = pos 9;
  to_block = to_block;
  sh_tkn = b's' ∷ [];
  chain_id = pos 42;
}

-- After a run that asked for the head at block 7 and has read the transfer of block 9 already.
abbrev early_db : Db
early_db = record { sh_tkn_transfer = first_row 7 ∷ second_row 7 ∷ []; delegates = [] }

-- After the next run, which reads it again.
abbrev twice_db : Db
twice_db = record early_db { sh_tkn_transfer = first_row 7 ∷ second_row 7 ∷ second_row 20 ∷ [] }

abbrev full_db : Db
full_db = record twice_db {
  delegates =
      record {
        addr = text_b;
        delegate = text_a;
        block = pos 7;
        index = pos 2;
        to_block = 20;
        chain_id = pos 42;
      }
      ∷ [];
}

early :
    run_transfers geth
      (read_at history 7)
      from_db
      (app, record { sh_tkn_transfer = []; delegates = [] })
    ≡ some (record app { last_transfers = 7 }, early_db)
unfolding run_transfers store_transfers db_get_sh_tkn_transfer_start_block db_insert_sh_tkn_transfer
    insert_transfers
early = refl

again :
    run_transfers geth (read_at history 20) from_db (record app { last_transfers = 7 }, early_db)
    ≡ some (record app { last_transfers = 20 }, twice_db)
unfolding run_transfers store_transfers db_get_sh_tkn_transfer_start_block db_insert_sh_tkn_transfer
    insert_transfers
again = refl

delegates_stored :
    run_delegates geth
      (read_at delegated 20)
      delegates_from_db
      (record app { last_transfers = 20 }, twice_db)
    ≡ some (record app { last_delegates = 20; last_transfers = 20 }, full_db)
unfolding run_delegates store_delegates db_get_delegate_start_block db_insert_delegates
    insert_delegates
delegates_stored = refl

early-Takes :
    Takes
      (Views.transfers geth app)
      (read_at history 7)
      from_db
      (transfers_at (app, record { sh_tkn_transfer = []; delegates = [] }))
early-Takes = record {
  starts = refl;
  prepares = refl;
  accepts = λ r e. (refl, λ r' e'. (refl, tt));
}

again-Takes :
    Takes
      (Views.transfers geth app)
      (read_at history 20)
      from_db
      (transfers_at (record app { last_transfers = 7 }, early_db))
again-Takes = record { starts = refl; prepares = refl; accepts = λ r e. (refl, tt) }

delegates_run-Takes :
    Takes
      (Views.delegations geth app)
      (read_at delegated 20)
      delegates_from_db
      (delegations_at (record app { last_transfers = 20 }, twice_db))
delegates_run-Takes = record { starts = refl; prepares = refl; accepts = λ r e. (refl, tt) }

abbrev caught_world : World ℤ
caught_world = record delegated_world {
  app = record app { last_delegates = 20; last_transfers = 20 };
  db = full_db;
}

life : Reach geth first_world caught_world
life =
    after
      (after
        (after
          (after born (
            grow first_world 20 history delegated (omega arith) (omega arith)
              (omega arith, (omega arith, tt)) (omega arith, tt)))
          (sync_transfers delegated_world 7 (read_at history 7) from_db
            (record app { last_transfers = 7 }) early_db (omega arith)
            (read_at-Sees IsTransfer history 7 (tt, (tt, tt))) early-Takes early))
        (sync_transfers
          (record delegated_world { app = record app { last_transfers = 7 }; db = early_db }) 20
          (read_at history 20) from_db (record app { last_transfers = 20 }) twice_db (omega arith)
          (read_at-Sees IsTransfer history 20 (tt, (tt, tt))) again-Takes again))
      (sync_delegates
        (record delegated_world { app = record app { last_transfers = 20 }; db = twice_db }) 20
        (read_at delegated 20) delegates_from_db
        (record app { last_delegates = 20; last_transfers = 20 }) full_db (omega arith)
        (read_at-Sees IsDelegation delegated 20 (tt, tt)) delegates_run-Takes delegates_stored)

known_block : 12 ≤ (db_get_latest_block caught_world.app caught_world.db none none).0
unfolding db_get_latest_block db_get_delegate_start_block db_get_sh_tkn_transfer_start_block
known_block = omega arith

Reach-AnsweredAt_example : AnsweredAt geth caught_world 12
Reach-AnsweredAt_example =
    Reach-AnsweredAt geth first_world caught_world 12 first-IsCaught life known_block
