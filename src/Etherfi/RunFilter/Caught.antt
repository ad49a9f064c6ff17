-- ===== src/Etherfi/RunFilter/Caught.antt =====
-- When a table has caught up with the chain, however often a log was stored, and that a run of
-- runfilter.go keeps it so, also while the chain grows.
use d8x_etherfi.Base.{
  ℕ, ◌+◌, ◌%◌, ◌^◌, ◌≤◌, ◌<◌, ◌≡◌, sym, ap, ◌∙◌, inl, inr, List, ◌++◌, map, none, some, Error, All,
  All-append, All-map, All-weaken, All-zip, arith, Option-cases, max,
}
use mathlib.Core.List.{Mem, mem-append_left, mem-append_right, map-append}
use mathlib.Core.Path.{subst}
use native.Mathlib.Decide.{dec_le}
use d8x_etherfi.Base.Int.{ℤ}
use d8x_etherfi.Filterer.{Log, Filtered}
use d8x_etherfi.Filterer.Window.{within, All-within}
use d8x_etherfi.Filterer.Events.{AllOrNone, AllOrNone-none, log_block}
use d8x_etherfi.Etherfi.RunFilter.{Answers}
use d8x_etherfi.Etherfi.RunFilter.Table.{Table, Cursor, known, max_block, store_rows, run_rows}
use d8x_etherfi.Etherfi.RunFilter.InStep.{
  MakesRows, Takes, NoneRefused, insert_rows-All, start_block-known, known-set,
}
use d8x_etherfi.Etherfi.RunFilter.Changes.{max_block-le, below-max_block}
use d8x_etherfi.Etherfi.RunFilter.Members.{All-Mem, within-in_range, mem-within}

-- The filterer over nodes that agree on a history of logs of one kind, with the head that a node gave
-- when it was asked: the history may go on behind it, since the last window is open.
pub record Sees (IsKind : Log → Type 0) (history : List Log) (head : ℕ) (read : ℕ → Filtered Log)
    : Type 0 where
  pub kind : All IsKind history
  pub all_or_none :
      (start : ℕ) → start ≤ head → AllOrNone (within log_block start none history) head (read start)
  pub too_late : (start : ℕ) → head < start → (e : Error) × ((read start).failure ≡ some e)

module _ {Row : Type 0} (table : Table Row) where
  -- A row of a log of the history after genesis, on the chain, that was read up to a known block.
  abbrev pub IsFrom : List Log → ℕ → ℤ → ℕ → Row → Type 0
  IsFrom history genesis chain n r =
      Mem (table.log_of r) history
      × (genesis + 1 ≤ log_block (table.log_of r))
      × (table.chain_id r ≡ chain)
      × (table.to_block r ≤ n)

  -- Every row is of a log of the history, and every log after genesis up to the known block has a
  -- row.
  pub record Caught (history : List Log) (c : Cursor Row) : Type 0 where
    pub rows_of : All (IsFrom history c.genesis c.chain (known table c)) c.rows
    pub all_of :
        All
          (λ l.
            c.genesis + 1 ≤ log_block l
            → log_block l ≤ known table c
            → Mem l (map table.log_of c.rows))
          history
    pub past_genesis : c.genesis ≤ known table c

  module _ (IsKind : Log → Type 0) (history : List Log) (head : ℕ) (read : ℕ → Filtered Log)
      (sees : Sees IsKind history head read) (answers : Answers Row) (c : Cursor Row)
      (db_ok : Takes table read answers c) (makes : MakesRows table IsKind c.chain)
      (small : known table c + 1 < 2 ^ 64) (caught : Caught history c) where
    abbrev b : ℕ
    b = known table c

    -- The outcome of a run.
    abbrev pub Followed : ℕ → List Row → Type 0
    Followed n rows =
        Caught history (record c { last = n; rows = rows })
        × (known table (record c { last = n; rows = rows }) ≤ max b head)

    reads_from :
        run_rows table read answers c
        ≡ store_rows table (read (b + 1)) answers (record c { last = b })
    unfolding run_rows
    reads_from =
        let wrap : (b + 1) % 2 ^ 64 ≡ b + 1 = omega arith in
        rw (run_rows, start_block-known table c answers.start_failure db_ok.starts)
          (ap (λ n. store_rows table (read n) answers (record c { last = b })) wrap)

    nothing-Followed : Followed b c.rows
    nothing-Followed =
        let k : known table (record c { last = b }) ≡ b = ground arith in
        (
          record {
            rows_of = rw k caught.rows_of;
            all_of = rw k caught.all_of;
            past_genesis = rw k caught.past_genesis;
          },
          omega arith,
        )

    new-IsFrom :
        (new : List Row)
        → map table.log_of new ≡ within log_block (b + 1) none history
        → All (λ r. (table.to_block r ≡ head) × (table.chain_id r ≡ c.chain)) new
        → All (IsFrom history c.genesis c.chain head) new
    new-IsFrom new are made =
        let from_chain : All (λ l. Mem l history) (map table.log_of new) =
          subst (All (λ l. Mem l history)) (sym are)
            (All-within log_block (λ l. Mem l history) (b + 1) none history (All-Mem history)) in
        let late : All (λ l. c.genesis + 1 ≤ log_block l) (map table.log_of new) =
          subst (All (λ l. c.genesis + 1 ≤ log_block l)) (sym are) (
            All-weaken (λ l q. ground (arith, caught.past_genesis, q))
              (within log_block (b + 1) none history)
              (within-in_range log_block (b + 1) none history)) in
        All-weaken (λ r (m, (l, (at, on))). (m, l, on, omega arith)) new
          (All-zip _ _ new (All-map (λ l. Mem l history) table.log_of new from_chain) (
            All-zip _ _ new (All-map (λ l. c.genesis + 1 ≤ log_block l) table.log_of new late)
              made))

    has_row :
        (new : List Row)
        → map table.log_of new ≡ within log_block (b + 1) none history
        → (l : Log) → Mem l history
        → (c.genesis + 1 ≤ log_block l → log_block l ≤ b → Mem l (map table.log_of c.rows))
        → c.genesis + 1 ≤ log_block l
        → Mem l (map table.log_of (c.rows ++ new))
    has_row new are l m old after =
        subst (Mem l) (sym (map-append table.log_of c.rows new)) (elim (dec_le (log_block l) b) [
          | yes k ↦ mem-append_left (map table.log_of new) (old after k)
          | no k ↦ mem-append_right (map table.log_of c.rows) (
              subst (Mem l) (sym are)
                (mem-within log_block (b + 1) none history l m (ground (arith, k))))
        ])

    stored-Followed :
        (new : List Row)
        → b + 1 ≤ head
        → map table.log_of new ≡ within log_block (b + 1) none history
        → All (λ r. (table.to_block r ≡ head) × (table.chain_id r ≡ c.chain)) new
        → Followed head (c.rows ++ new)
    stored-Followed new in_time are made =
        let k = known-set table (record c { rows = c.rows ++ new }) head (omega arith) in
        (
          record {
            rows_of = rw k (
                All-append (IsFrom history c.genesis c.chain head) c.rows new
                  (All-weaken (λ r (m, l, on, by). (m, l, on, omega arith)) c.rows caught.rows_of)
                  (new-IsFrom new are made));
            all_of =
                All-weaken (λ l (m, old) after by. has_row new are l m old after) history
                  (All-zip _ _ history (All-Mem history) caught.all_of);
            past_genesis = omega (arith, caught.past_genesis, k);
          },
          omega (arith, k),
        )

    read_all :
        (read (b + 1)).failure ≡ none
        → (n : ℕ) × (rows : List Row) × (run_rows table read answers c
            ≡ some (record c { last = n; rows = rows }))
          × Followed n rows
    unfolding store_rows
    read_all q =
        let found = read (b + 1) in
        elim (dec_le (b + 1) head) [
          | no late ↦ let (f, p) = sees.too_late (b + 1) (omega arith) in cc
          | yes in_time ↦
              let (logs, block) =
                AllOrNone-none _ head found (sees.all_or_none (b + 1) in_time) q in
              let (new, ins, are, made) =
                insert_rows-All table IsKind c.chain makes head answers.exec found.logs c.rows
                  (subst (All IsKind) (sym logs)
                    (All-within log_block IsKind (b + 1) none history sees.kind))
                  (subst (λ n. NoneRefused table n answers.exec found.logs c.rows) block
                    db_ok.accepts) in
              (
                head,
                c.rows ++ new,
                reads_from ∙ rw (store_rows, q, db_ok.prepares, block, ins),
                stored-Followed new in_time (are ∙ logs) made,
              )
        ]

    -- After a run in which no call of the database fails, the table has caught up with the chain
    -- again, whether the filterer read all or failed.
    pub run_rows-Caught :
        (n : ℕ) × (rows : List Row) × (run_rows table read answers c
          ≡ some (record c { last = n; rows = rows }))
        × Followed n rows
    unfolding store_rows
    run_rows-Caught = elim (Option-cases (read (b + 1)).failure) [
      | inl q ↦ read_all q
      | inr (f, q) ↦ (b, c.rows, reads_from ∙ rw (store_rows, q), nothing-Followed)
    ]

  pub Caught-grows :
      (history new : List Log) (head : ℕ) (c : Cursor Row)
      → Caught history c
      → known table c ≤ max c.genesis head
      → All (λ l. head < log_block l) new
      → Caught (history ++ new) c
  Caught-grows history new head c s k later = record {
    rows_of = All-weaken (λ r (m, l, on, by). (mem-append_left new m, l, on, by)) c.rows s.rows_of;
    all_of =
        All-append
          (λ l.
            c.genesis + 1 ≤ log_block l
            → log_block l ≤ known table c
            → Mem l (map table.log_of c.rows))
          history new s.all_of (All-weaken (λ l h after by. absurd (omega arith)) new later);
    past_genesis = s.past_genesis;
  }

  -- The block that is looked up again may be lower, if the last blocks had no log.
  pub Caught-restart :
      (history : List Log) (c : Cursor Row)
      → Caught history c
      → Caught history (record c { last = 0 })
        × (known table (record c { last = 0 }) ≤ known table c)
  Caught-restart history c s =
      let m = max_block table c.chain c.rows in
      let read_by : All (λ r. (table.chain_id r ≡ c.chain) × (table.to_block r ≤ known table c))
          c.rows =
        All-weaken (λ r (_, _, on, by). (on, by)) c.rows s.rows_of in
      let low : m ≤ known table c = max_block-le table c.chain (known table c) c.rows read_by in
      let again : max c.genesis m ≤ known table c = omega (arith, s.past_genesis) in
      (
        record {
          rows_of =
              All-weaken (λ r ((mem, l, on, _), by). (mem, l, on, omega arith)) c.rows
                (All-zip _ _ c.rows s.rows_of
                  (below-max_block table c.chain (known table c) c.rows read_by));
          all_of = All-weaken (λ l old after by. old after (omega arith)) history s.all_of;
          past_genesis = omega arith;
        },
        again,
      )
