-- ===== src/Etherfi/Store.antt =====
-- internal/etherfi/db.go, over the two tables of internal/db/migrations. PostgreSQL runs the
-- queries: a table is the list of its rows, in the order in which they were inserted, and a query is
-- what its text says of them. A call to the database may fail; whether it does is an argument.
pub mod Sets
pub mod Keys
use d8x_etherfi.Base.{
  ℕ, List, [], ◌∷◌, ◌++◌, Option, none, some, Text, Result, ok, err, Error, Bool, true, false, ◌&&◌,
  if◌then◌else◌, eqb, max, min, text_beq,
}
use d8x_etherfi.Base.Int.{ℤ, pos, eqb_ℤ, ltb_ℤ}
use d8x_etherfi.Chain.{Geth}
use d8x_etherfi.Filterer.{Log, delegate_log, transfer_log}
use d8x_etherfi.Etherfi.App.{App}
use mathlib.Core.Bool.{not}
use Prim.Native.String.{◌++◌ as str_append}

-- `env.DELEGATE_IDX_STRATEGY`
abbrev pub delegate_idx_strategy : ℤ
delegate_idx_strategy = pos 2

-- Rows of `sh_tkn_transfer` and `delegates`, less the time of creation.
pub record TransferRow : Type 0 where
  pub from : Text
  pub to : Text
  pub block : ℤ
  pub to_block : ℕ
  pub sh_tkn : Text
  pub chain_id : ℤ

pub record DelegateRow : Type 0 where
  pub addr : Text
  pub delegate : Text
  pub block : ℤ
  pub index : ℤ
  pub to_block : ℕ
  pub chain_id : ℤ

pub record Db : Type 0 where
  pub sh_tkn_transfer : List TransferRow
  pub delegates : List DelegateRow

-- `SELECT DISTINCT`: of equal rows one stays.
module _ {A : Type 0} (same : A → A → Bool) where
  abbrev pub occurs : A → List A → Bool
  occurs a [] = false
  occurs a (b ∷ bs) = if same a b then true else occurs a bs

  abbrev pub distinct : List A → List A
  distinct [] = []
  distinct (a ∷ xs) = if occurs a xs then distinct xs else a ∷ distinct xs

-- `block <= $1` for a block number of 64 bits
abbrev pub up_to : ℤ → ℕ → Bool
up_to block n = not (ltb_ℤ (pos n) block)

abbrev pub holders_where : ℕ → ℤ → List TransferRow → List Text
holders_where block_num chain_id [] = []
holders_where block_num chain_id (r ∷ rows) =
    if up_to r.block block_num && eqb_ℤ r.chain_id chain_id
    then r.to ∷ holders_where block_num chain_id rows
    else holders_where block_num chain_id rows

abbrev pub strategy_where : ℕ → ℤ → List DelegateRow → List (Text × Text)
strategy_where to_block chain_id [] = []
strategy_where to_block chain_id (r ∷ rows) =
    if up_to r.block to_block && (eqb_ℤ r.chain_id chain_id && eqb_ℤ r.index delegate_idx_strategy)
    then (r.addr, r.delegate) ∷ strategy_where to_block chain_id rows
    else strategy_where to_block chain_id rows

abbrev pub pair_beq : Text × Text → Text × Text → Bool
pair_beq (a, b) (c, d) = text_beq a c && text_beq b d

-- `coalesce(max(to_block),0)` over the rows of a chain
abbrev pub max_transfers : ℤ → List TransferRow → ℕ
max_transfers chain_id [] = 0
max_transfers chain_id (r ∷ rows) =
    max (if eqb_ℤ r.chain_id chain_id then r.to_block else 0) (max_transfers chain_id rows)

abbrev pub max_delegates : ℤ → List DelegateRow → ℕ
max_delegates chain_id [] = 0
max_delegates chain_id (r ∷ rows) =
    max (if eqb_ℤ r.chain_id chain_id then r.to_block else 0) (max_delegates chain_id rows)

module _ {F : Type 0} (app : App F) (db : Db) where
  -- `failure` is the error of `Db.Query`, if it has one.
  unfoldable pub db_get_share_token_holders : Option Error → ℕ → Result (List Text)
  db_get_share_token_holders (some e) block_num = err (str_append "dbGetTokenHolders" e)
  db_get_share_token_holders none block_num =
      ok (distinct text_beq (holders_where block_num app.chain_id db.sh_tkn_transfer))

  unfoldable pub db_find_strategy_delegates : Option Error → ℕ → Result (List (Text × Text))
  db_find_strategy_delegates (some e) to_block = err (str_append "DbFindStrategyDelegates" e)
  db_find_strategy_delegates none to_block =
      ok (distinct pair_beq (strategy_where to_block app.chain_id db.delegates))

  -- The start blocks, from the cache if it is filled. An error leaves the cache and gives block 0.
  unfoldable pub db_get_sh_tkn_transfer_start_block : Option Error → ℕ × App F
  db_get_sh_tkn_transfer_start_block failure =
      let block = max app.genesis (max_transfers app.chain_id db.sh_tkn_transfer) in
      if eqb app.last_transfers 0
      then (elim failure [
        | some _ ↦ (0, app)
        | none ↦ (block, record app { last_transfers = block })
      ])
      else (app.last_transfers, app)

  unfoldable pub db_get_delegate_start_block : Option Error → ℕ × App F
  db_get_delegate_start_block failure =
      let block = max app.genesis (max_delegates app.chain_id db.delegates) in
      if eqb app.last_delegates 0
      then (elim failure [
        | some _ ↦ (0, app)
        | none ↦ (block, record app { last_delegates = block })
      ])
      else (app.last_delegates, app)

-- `DBGetLatestBlock`: the delegates first.
unfoldable pub db_get_latest_block :
    {F : Type 0} → App F → Db → Option Error → Option Error → ℕ × App F
unfolding db_get_delegate_start_block db_get_sh_tkn_transfer_start_block
db_get_latest_block app db e₀ e₁ =
    let (d, app') = db_get_delegate_start_block app db e₀ in
    let (t, app'') = db_get_sh_tkn_transfer_start_block app' db e₁ in (min d t, app'')

-- What an insert loop has come to: an end, an error, or the panic of a log of the other type.
pub data Inserted : Type 0 where
  all_in : Inserted
  failed : Error → Inserted
  wrong_type : Inserted

module _ {F : Type 0} (app : App F) (geth : Geth) (to_block : ℕ) where
  -- `exec` is what `stmt.Exec` makes of a row, given the table: `none` if it takes it.
  unfoldable pub insert_transfers :
      (TransferRow → List TransferRow → Option Error)
      → List Log
      → List TransferRow
      → Inserted × List TransferRow
  insert_transfers exec [] rows = (all_in, rows)
  insert_transfers exec (delegate_log d ∷ logs) rows = (wrong_type, rows)
  insert_transfers exec (transfer_log t ∷ logs) rows =
      let row : TransferRow = record {
        from = t.from;
        to = t.to;
        block = t.block_nr;
        to_block = to_block;
        sh_tkn = geth.hex app.pool_share_tkn_addr;
        chain_id = app.chain_id;
      } in
      elim (exec row rows) [
        | some e ↦ (failed e, rows)
        | none ↦ insert_transfers exec logs (rows ++ row ∷ [])
      ]

  unfoldable pub insert_delegates :
      (DelegateRow → List DelegateRow → Option Error)
      → List Log
      → List DelegateRow
      → Inserted × List DelegateRow
  insert_delegates exec [] rows = (all_in, rows)
  insert_delegates exec (transfer_log t ∷ logs) rows = (wrong_type, rows)
  insert_delegates exec (delegate_log d ∷ logs) rows =
      let row : DelegateRow = record {
        addr = d.addr;
        delegate = d.delegate;
        block = d.block_nr;
        index = d.index;
        to_block = to_block;
        chain_id = app.chain_id;
      } in
      elim (exec row rows) [
        | some e ↦ (failed e, rows)
        | none ↦ insert_delegates exec logs (rows ++ row ∷ [])
      ]

-- `DBInsertShTknTransfer` and `DBInsertDelegates`: the statement is prepared first.
unfoldable pub db_insert_sh_tkn_transfer :
    {F : Type 0}
    → App F
    → Geth
    → Option Error
    → (TransferRow → List TransferRow → Option Error)
    → List Log
    → ℕ
    → Db
    → Inserted × Db
unfolding insert_transfers
db_insert_sh_tkn_transfer app geth (some e) exec logs to_block db = (failed e, db)
db_insert_sh_tkn_transfer app geth none exec logs to_block db =
    let (r, rows) = insert_transfers app geth to_block exec logs db.sh_tkn_transfer in
    (r, record db { sh_tkn_transfer = rows })

unfoldable pub db_insert_delegates :
    {F : Type 0}
    → App F
    → Geth
    → Option Error
    → (DelegateRow → List DelegateRow → Option Error)
    → List Log
    → ℕ
    → Db
    → Inserted × Db
unfolding insert_delegates
db_insert_delegates app geth (some e) exec logs to_block db = (failed e, db)
db_insert_delegates app geth none exec logs to_block db =
    let (r, rows) = insert_delegates app geth to_block exec logs db.delegates in
    (r, record db { delegates = rows })

-- `ConnectDB`: the handle that the app goes on with. `open_db` is `sql.Open` for PostgreSQL, which only
-- makes a handle.
unfoldable pub connect_db : {Handle : Type 0} → (Text → Result Handle) → Text → Result Handle
connect_db open_db conn_str = elim (open_db conn_str) [ err e ↦ err e | ok db ↦ ok db ]
