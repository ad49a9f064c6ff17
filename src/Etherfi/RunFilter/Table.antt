-- ===== src/Etherfi/RunFilter/Table.antt =====
-- A specification of what both goroutines of `RunFilter` do: follow the logs of one kind in one table.
use d8x_etherfi.Base.{
  ℕ, ◌+◌, ◌%◌, ◌^◌, List, [], ◌∷◌, ◌++◌, Option, none, some, Error, if◌then◌else◌, eqb, max,
}
use d8x_etherfi.Base.Int.{ℤ, eqb_ℤ}
use d8x_etherfi.Filterer.{Log, Filtered}
use d8x_etherfi.Etherfi.Store.{Inserted, all_in, failed, wrong_type}
use d8x_etherfi.Etherfi.RunFilter.{Answers}

-- How the rows of a table are made of logs that were read up to a block, and what they say. There
-- is no row for a log of another kind.
pub record Table (Row : Type 0) : Type 0 where
  pub row : ℕ → Log → Option Row
  pub log_of : Row → Log
  pub to_block : Row → ℕ
  pub chain_id : Row → ℤ

-- A table, and how far its logs are known; 0 if that is to be looked up.
pub record Cursor (Row : Type 0) : Type 0 where
  pub genesis : ℕ
  pub chain : ℤ
  pub last : ℕ
  pub rows : List Row

module _ {Row : Type 0} (table : Table Row) where
  abbrev pub max_block : ℤ → List Row → ℕ
  max_block chain [] = 0
  max_block chain (r ∷ rows) =
      max (if eqb_ℤ (table.chain_id r) chain then table.to_block r else 0) (max_block chain rows)

  -- The block up to which the logs are known, by the cursor or by the rows.
  abbrev pub known : Cursor Row → ℕ
  known c = if eqb c.last 0 then max c.genesis (max_block c.chain c.rows) else c.last

  unfoldable pub start_block : Option Error → Cursor Row → ℕ × Cursor Row
  start_block failure c =
      let block = max c.genesis (max_block c.chain c.rows) in
      if eqb c.last 0
      then (elim failure [ some _ ↦ (0, c) | none ↦ (block, record c { last = block }) ])
      else (c.last, c)

  unfoldable pub insert_rows :
      ℕ → (Row → List Row → Option Error) → List Log → List Row → Inserted × List Row
  insert_rows to_block exec [] rows = (all_in, rows)
  insert_rows to_block exec (l ∷ logs) rows = elim (table.row to_block l) [
    | none ↦ (wrong_type, rows)
    | some r ↦ elim (exec r rows) [
      | some e ↦ (failed e, rows)
      | none ↦ insert_rows to_block exec logs (rows ++ r ∷ [])
    ]
  ]

  abbrev pub finish_rows : Cursor Row → Inserted × List Row → Option (Cursor Row)
  finish_rows c (all_in, rows) = some (record c { rows = rows })
  finish_rows c (failed e, rows) = some (record c { rows = rows })
  finish_rows c (wrong_type, rows) = none

  abbrev pub prepared : Option Error → Inserted × List Row → List Row → Inserted × List Row
  prepared (some e) inserted rows = (failed e, rows)
  prepared none inserted rows = inserted

  unfoldable pub store_rows : Filtered Log → Answers Row → Cursor Row → Option (Cursor Row)
  unfolding insert_rows
  store_rows found answers c = elim found.failure [
    | some e ↦ some c
    | none ↦
        finish_rows (record c { last = found.block })
          (prepared answers.prepare_failure (insert_rows found.block answers.exec found.logs c.rows)
            c.rows)
  ]

  -- One run: look up the block, read from the next one on, and store.
  unfoldable pub run_rows : (ℕ → Filtered Log) → Answers Row → Cursor Row → Option (Cursor Row)
  unfolding start_block store_rows
  run_rows read answers c =
      let (block, c') = start_block answers.start_failure c in
      store_rows (read ((block + 1) % 2 ^ 64)) answers c'
