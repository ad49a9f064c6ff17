-- ===== src/Etherfi/RunFilter/InStep.antt =====
-- When a table is in step with the chain, and that a run keeps it so.
use d8x_etherfi.Base.{
  ℕ, ◌+◌, ◌%◌, ◌^◌, ◌≤◌, ◌<◌, ◌≡◌, refl, sym, ap, ◌∙◌, List, [], ◌∷◌, ◌++◌, map, Option, none, some,
  Error, All, All-append, All-map, All-weaken, All-zip, arith, inl, inr, Option-cases, Bool-cases,
  eqb, max,
}
use mathlib.Core.List.{append_assoc, map-append, append-nil}
use native.Mathlib.Decide.{dec_le}
use mathlib.Core.Path.{subst}
use d8x_etherfi.Base.Int.{ℤ}
use d8x_etherfi.Filterer.{Log, Filtered}
use d8x_etherfi.Filterer.Window.{within, IsSorted, within-append, within-closed, All-within}
use d8x_etherfi.Filterer.Events.{AllOrNone, AllOrNone-none, log_block}
use d8x_etherfi.Etherfi.Store.{all_in}
use d8x_etherfi.Etherfi.RunFilter.{Answers}
use d8x_etherfi.Etherfi.RunFilter.Table.{
  Table, Cursor, known, start_block, insert_rows, store_rows, run_rows,
}

-- The filterer over nodes that agree on a history of logs of one kind, whose last block is at most
-- the head.
pub record Reads (IsKind : Log → Type 0) (history : List Log) (head : ℕ) (read : ℕ → Filtered Log)
    : Type 0 where
  pub sorted : IsSorted log_block history
  pub kind : All IsKind history
  pub up_to_head : All (λ l. log_block l ≤ head) history
  pub all_or_none :
      (start : ℕ) → start ≤ head → AllOrNone (within log_block start none history) head (read start)
  pub too_late : (start : ℕ) → head < start → (e : Error) × ((read start).failure ≡ some e)

-- A database with no failure.
pub record NeverFails {Row : Type 0} (answers : Answers Row) : Type 0 where
  pub starts : answers.start_failure ≡ none
  pub prepares : answers.prepare_failure ≡ none
  pub accepts : (r : Row) (rows : List Row) → answers.exec r rows ≡ none

-- The database refuses none of the rows that an insert of these logs adds.
abbrev pub NoneRefused :
    {Row : Type 0} → Table Row → ℕ → (Row → List Row → Option Error) → List Log → List Row → Type 0
NoneRefused table n exec [] rows = Unit {0}
NoneRefused {Row} table n exec (l ∷ logs) rows =
    (r : Row)
    → table.row n l ≡ some r
    → (exec r rows ≡ none) × NoneRefused table n exec logs (rows ++ r ∷ [])

-- In one run no call of the database fails: neither the two queries, nor the insert of a row of what
-- the filterer has found.
pub record Takes {Row : Type 0} (table : Table Row) (read : ℕ → Filtered Log)
    (answers : Answers Row) (c : Cursor Row) : Type 0 where
  pub starts : answers.start_failure ≡ none
  pub prepares : answers.prepare_failure ≡ none
  pub accepts :
      NoneRefused table
        (read (known table c + 1)).block
        answers.exec
        (read (known table c + 1)).logs
        c.rows

NoneRefused-accepts :
    {Row : Type 0} (table : Table Row) (n : ℕ) (exec : Row → List Row → Option Error)
    (logs : List Log) (rows : List Row)
    → ((r : Row) (rows : List Row) → exec r rows ≡ none)
    → NoneRefused table n exec logs rows
NoneRefused-accepts table n exec [] rows h = tt
NoneRefused-accepts table n exec (l ∷ logs) rows h =
    λ r e. (h r rows, NoneRefused-accepts table n exec logs (rows ++ r ∷ []) h)

pub NeverFails-Takes :
    {Row : Type 0} (table : Table Row) (read : ℕ → Filtered Log) (answers : Answers Row)
    (c : Cursor Row)
    → NeverFails answers
    → Takes table read answers c
NeverFails-Takes table read answers c h = record {
  starts = h.starts;
  prepares = h.prepares;
  accepts =
      NoneRefused-accepts table (read (known table c + 1)).block answers.exec
        (read (known table c + 1)).logs c.rows h.accepts;
}

-- Every log of the kind has a row, which says what the log says.
abbrev pub MakesRows : {Row : Type 0} → Table Row → (Log → Type 0) → ℤ → Type 0
MakesRows {Row} table IsKind chain =
    (n : ℕ) (l : Log)
    → IsKind l
    → (r : Row) × (table.row n l ≡ some r)
      × (table.log_of r ≡ l)
      × (table.to_block r ≡ n)
      × (table.chain_id r ≡ chain)

module _ {Row : Type 0} (table : Table Row) where
  -- The row was read in time, belongs to the chain, and was read up to a known block.
  abbrev pub IsDated : ℤ → ℕ → Row → Type 0
  IsDated chain n r =
      (log_block (table.log_of r) ≤ table.to_block r)
      × (table.chain_id r ≡ chain)
      × (table.to_block r ≤ n)

  -- The table holds the logs of the history from the block after genesis up to the known block,
  -- each once and in order, with the blocks up to which they were read.
  pub record InStep (history : List Log) (c : Cursor Row) : Type 0 where
    pub rows_are :
        map table.log_of c.rows ≡ within log_block (c.genesis + 1) (some (known table c)) history
    pub past_genesis : c.genesis ≤ known table c
    pub dated : All (IsDated c.chain (known table c)) c.rows

  module _ (IsKind : Log → Type 0) (chain : ℤ) (makes : MakesRows table IsKind chain) (n : ℕ)
      (exec : Row → List Row → Option Error) where
    -- If none of them is refused, the rows of the logs come behind those that were there.
    pub insert_rows-All :
        (logs : List Log) (rows : List Row)
        → All IsKind logs
        → NoneRefused table n exec logs rows
        → (new : List Row) × (insert_rows table n exec logs rows ≡ (all_in, rows ++ new))
          × (map table.log_of new ≡ logs)
          × All (λ r. (table.to_block r ≡ n) × (table.chain_id r ≡ chain)) new
    unfolding insert_rows
    insert_rows-All [] rows h accepts =
        ([], ap (λ xs. (all_in, xs)) (sym (append-nil rows)), refl, tt)
    insert_rows-All (l ∷ logs) rows (h, hs) accepts =
        let (r, e, says, at, on) = makes n l h in
        let (takes, rest) = accepts r e in
        let (new, ins, are, made) = insert_rows-All logs (rows ++ r ∷ []) hs rest in
        (
          r ∷ new,
          rw (insert_rows, e, takes)
              (ins ∙ ap (λ xs. (all_in, xs)) (append_assoc rows (r ∷ []) new)),
          ap (◌∷◌ (table.log_of r)) are ∙ ap (λ x. x ∷ logs) says,
          ((at, on), made),
        )

  new-IsDated :
      (chain : ℤ) (n : ℕ) (new : List Row)
      → All (λ l. log_block l ≤ n) (map table.log_of new)
      → All (λ r. (table.to_block r ≡ n) × (table.chain_id r ≡ chain)) new
      → All (IsDated chain n) new
  new-IsDated chain n new h k =
      All-weaken (λ r (b, (at, on)). (omega arith, on, omega arith)) new
        (All-zip _ _ new (All-map (λ l. log_block l ≤ n) table.log_of new h) k)

  later-IsDated :
      (chain : ℤ) (m n : ℕ) (rows : List Row)
      → m ≤ n
      → All (IsDated chain m) rows
      → All (IsDated chain n) rows
  later-IsDated chain m n rows h = All-weaken (λ r (b, on, k). (b, on, omega arith)) rows

  known-last : (c : Cursor Row) → known table (record c { last = known table c }) ≡ known table c
  known-last c = ground arith

  pub known-set : (c : Cursor Row) (n : ℕ) → 0 < n → known table (record c { last = n }) ≡ n
  known-set c n h = ground arith

  pub start_block-known :
      (c : Cursor Row) (failure : Option Error)
      → failure ≡ none
      → start_block table failure c ≡ (known table c, record c { last = known table c })
  unfolding start_block
  start_block-known c failure e = elim (Bool-cases (eqb c.last 0)) [
    | inl q ↦ rw (e, start_block, q)
    | inr q ↦ rw (start_block, q)
  ]

  module _ (IsKind : Log → Type 0) (history : List Log) (head : ℕ) (read : ℕ → Filtered Log)
      (reads : Reads IsKind history head read) (answers : Answers Row) (c : Cursor Row)
      (db_ok : Takes table read answers c) (makes : MakesRows table IsKind c.chain)
      (small : known table c + 1 < 2 ^ 64) (in_step : InStep history c) where
    abbrev b : ℕ
    b = known table c

    -- The outcome of a run: rows in step, that know no more than the head.
    abbrev pub Kept : ℕ → List Row → Type 0
    Kept n rows =
        InStep history (record c { last = n; rows = rows })
        × (known table (record c { last = n; rows = rows }) ≤ max b head)

    run_rows-store :
        run_rows table read answers c
        ≡ store_rows table (read (b + 1)) answers (record c { last = b })
    unfolding run_rows
    run_rows-store =
        let wrap : (b + 1) % 2 ^ 64 ≡ b + 1 = omega arith in
        rw (run_rows, start_block-known c answers.start_failure db_ok.starts)
          (ap (λ n. store_rows table (read n) answers (record c { last = b })) wrap)

    -- The rows behind the ones that were there are what the chain has after the known block.
    joined :
        (logs : List Log)
        → logs ≡ within log_block (b + 1) none history
        → map table.log_of c.rows ++ logs ≡ within log_block (c.genesis + 1) (some head) history
    joined logs e =
        ap (λ xs. xs ++ logs) in_step.rows_are
        ∙ ap (λ xs. within log_block (c.genesis + 1) (some b) history ++ xs) e
        ∙ within-append log_block (c.genesis + 1) b history reads.sorted
            (omega (arith, in_step.past_genesis))
        ∙ sym (within-closed log_block (c.genesis + 1) head history reads.up_to_head)

    looked_up-Kept : Kept b c.rows
    looked_up-Kept =
        let k = known-last c in
        (
          record {
            rows_are = rw k in_step.rows_are;
            past_genesis = rw k in_step.past_genesis;
            dated = rw k in_step.dated;
          },
          omega arith,
        )

    stored-Kept :
        (new : List Row)
        → b + 1 ≤ head
        → map table.log_of new ≡ within log_block (b + 1) none history
        → All (λ r. (table.to_block r ≡ head) × (table.chain_id r ≡ c.chain)) new
        → Kept head (c.rows ++ new)
    stored-Kept new in_time are made =
        let k = known-set (record c { rows = c.rows ++ new }) head (omega arith) in
        let blocks : All (λ l. log_block l ≤ head) (map table.log_of new) =
          subst (All (λ l. log_block l ≤ head)) (sym are) (
            All-within log_block (λ l. log_block l ≤ head) (b + 1) none history reads.up_to_head) in
        (
          record {
            rows_are =
                rw k (map-append table.log_of c.rows new ∙ joined (map table.log_of new) are);
            past_genesis = omega (arith, in_step.past_genesis, k);
            dated = rw k (
                All-append (IsDated c.chain head) c.rows new
                  (later-IsDated c.chain b head c.rows (omega arith) in_step.dated)
                  (new-IsDated c.chain head new blocks made));
          },
          omega (arith, k),
        )

    read_all :
        (read (b + 1)).failure ≡ none
        → (n : ℕ) × (rows : List Row) × (run_rows table read answers c
            ≡ some (record c { last = n; rows = rows }))
          × Kept n rows
    unfolding store_rows
    read_all q =
        let found = read (b + 1) in
        elim (dec_le (b + 1) head) [
          | no late ↦ let (f, p) = reads.too_late (b + 1) (omega arith) in cc
          | yes in_time ↦
              let (logs, block) =
                AllOrNone-none _ head found (reads.all_or_none (b + 1) in_time) q in
              let (new, ins, are, made) =
                insert_rows-All IsKind c.chain makes head answers.exec found.logs c.rows
                  (subst (All IsKind) (sym logs)
                    (All-within log_block IsKind (b + 1) none history reads.kind))
                  (subst (λ n. NoneRefused table n answers.exec found.logs c.rows) block
                    db_ok.accepts) in
              (
                head,
                c.rows ++ new,
                run_rows-store ∙ rw (store_rows, q, db_ok.prepares, block, ins),
                stored-Kept new in_time (are ∙ logs) made,
              )
        ]

    -- After a run in which no call of the database fails, the table is in step with the chain again,
    -- whether the filterer read all or failed.
    pub run_rows-InStep :
        (n : ℕ) × (rows : List Row) × (run_rows table read answers c
          ≡ some (record c { last = n; rows = rows }))
        × Kept n rows
    unfolding store_rows
    run_rows-InStep = elim (Option-cases (read (b + 1)).failure) [
      | inl q ↦ read_all q
      | inr (f, q) ↦ (b, c.rows, run_rows-store ∙ rw (store_rows, q), looked_up-Kept)
    ]
