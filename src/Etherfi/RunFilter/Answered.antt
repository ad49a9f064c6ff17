-- ===== src/Etherfi/RunFilter/Answered.antt =====
-- What the queries of internal/etherfi/db.go answer once the tables have caught up with the chain.
use d8x_etherfi.Base.{
  ℕ, ◌+◌, ◌≤◌, ◌≡◌, refl, ap, ◌∙◌, ◌↔◌, inl, inr, List, [], ◌∷◌, map, none, some, Text, text_beq,
  text_beq_iff, ok, true, leb, eqb, min, max, All, All-weaken, All-zip, Bool-cases, arith,
}
use mathlib.Core.Path.{subst}
use mathlib.Core.List.{Mem}
use d8x_etherfi.Base.Int.{ℤ, pos, negsuc, pos_part, eqb_ℤ, eqb_ℤ_iff}
use d8x_etherfi.Chain.{Geth}
use d8x_etherfi.Filterer.{Log}
use d8x_etherfi.Filterer.Window.{within, All-within}
use d8x_etherfi.Filterer.Events.{log_block}
use d8x_etherfi.Etherfi.App.{App}
use d8x_etherfi.Etherfi.Store.{
  Db, TransferRow, DelegateRow, up_to, distinct, pair_beq, holders_where, strategy_where,
  max_delegates, delegate_idx_strategy, db_get_share_token_holders, db_find_strategy_delegates,
  db_get_latest_block, db_get_delegate_start_block, db_get_sh_tkn_transfer_start_block,
}
use d8x_etherfi.Etherfi.Store.Sets.{Apart, distinct-Apart, mem-distinct}
use d8x_etherfi.Etherfi.RunFilter.Views.{transfers, delegations, transfers_at, delegations_at}
use d8x_etherfi.Etherfi.RunFilter.Refines.{max_transfers-max_block, max_delegates-max_block}
use d8x_etherfi.Etherfi.RunFilter.Synced.{transfers_known, delegations_known}
use d8x_etherfi.Etherfi.RunFilter.Life.{World}
use d8x_etherfi.Etherfi.RunFilter.Lives.{Reach, IsCaught, Reach-IsCaught}
use d8x_etherfi.Etherfi.RunFilter.Caught.{Caught}
use d8x_etherfi.Etherfi.RunFilter.Changes.{All-log_of}
use d8x_etherfi.Etherfi.RunFilter.Table.{Table, Cursor, known}
use d8x_etherfi.Etherfi.RunFilter.Members.{
  receivers, strategies, within-in_range, mem-within, receivers-Mem, strategies-Mem,
}

up_to-leb : (b : ℤ) (n : ℕ) → up_to b n ≡ leb (pos_part b) n
up_to-leb (pos m) n = ground arith
up_to-leb (negsuc m) n = ground arith

module _ {F : Type 0} (geth : Geth) (app : App F) where
  holders_where-receivers :
      (n : ℕ) (chain : ℤ) (rows : List TransferRow)
      → All (λ r. r.chain_id ≡ chain) rows
      → holders_where n chain rows
        ≡ receivers (within log_block 0 (some n) (map (transfers geth app).log_of rows))
  holders_where-receivers n chain [] h = refl
  holders_where-receivers n chain (r ∷ rows) (h, hs) =
      let ih = holders_where-receivers n chain rows hs in
      let from_start : leb 0 (pos_part r.block) ≡ true = ground arith in
      let same : eqb_ℤ r.chain_id chain ≡ true = (eqb_ℤ_iff r.chain_id chain).1 h in
      elim (Bool-cases (leb (pos_part r.block) n)) [
        | inl q ↦ rw (up_to-leb r.block n, q, same, from_start) (ap (◌∷◌ r.to) ih)
        | inr q ↦ rw (up_to-leb r.block n, q, from_start) ih
      ]

  strategy_where-strategies :
      (n : ℕ) (chain : ℤ) (rows : List DelegateRow)
      → All (λ r. r.chain_id ≡ chain) rows
      → strategy_where n chain rows
        ≡ strategies (within log_block 0 (some n) (map (delegations geth app).log_of rows))
  strategy_where-strategies n chain [] h = refl
  strategy_where-strategies n chain (r ∷ rows) (h, hs) =
      let ih = strategy_where-strategies n chain rows hs in
      let same : eqb_ℤ r.chain_id chain ≡ true = (eqb_ℤ_iff r.chain_id chain).1 h in
      let from_start : leb 0 (pos_part r.block) ≡ true = ground arith in
      elim (Bool-cases (leb (pos_part r.block) n)) [
        | inr q ↦ rw (up_to-leb r.block n, q, from_start) ih
        | inl q ↦ elim (Bool-cases (eqb_ℤ r.index delegate_idx_strategy)) [
          | inl p ↦
              rw (up_to-leb r.block n, q, same, from_start, p) (ap (◌∷◌ (r.addr, r.delegate)) ih)
          | inr p ↦ rw (up_to-leb r.block n, q, same, from_start, p) ih
        ]
      ]

pair_beq_iff : (p q : Text × Text) → (pair_beq p q ≡ true) ↔ (p ≡ q)
pair_beq_iff (a, b) (c, d) = ground (arith, text_beq_iff a c, text_beq_iff b d)

module _ {F : Type 0} (geth : Geth) (app : App F) (db : Db) where
  transfers_start : (db_get_sh_tkn_transfer_start_block app db none).0 ≡ transfers_known geth app db
  unfolding db_get_sh_tkn_transfer_start_block
  transfers_start =
      let m = max_transfers-max_block geth app app.chain_id db.sh_tkn_transfer in
      elim (Bool-cases (eqb app.last_transfers 0)) [
        | inl q ↦ rw (db_get_sh_tkn_transfer_start_block, q, m)
        | inr q ↦ rw (db_get_sh_tkn_transfer_start_block, q)
      ]

module _ {F : Type 0} (geth : Geth) (app : App F) (db : Db) where
  -- The latest block is known to both tables.
  latest-known :
      (db_get_latest_block app db none none).0
      ≡ min (delegations_known geth app db) (transfers_known geth app db)
  unfolding db_get_latest_block db_get_delegate_start_block
  latest-known =
      let m = max_delegates-max_block geth app app.chain_id db.delegates in
      elim (Bool-cases (eqb app.last_delegates 0)) [
        | inl q ↦
            let known_d = max app.genesis (max_delegates app.chain_id db.delegates) in
            rw (db_get_latest_block, db_get_delegate_start_block, q)
              (ap (λ t. min known_d t)
                  (transfers_start geth (record app { last_delegates = known_d }) db)
                ∙ ap (λ d. min (max app.genesis d) (transfers_known geth app db)) m)
        | inr q ↦
            rw (db_get_latest_block, db_get_delegate_start_block, q, transfers_start geth app db)
      ]

module _ {F : Type 0} (geth : Geth) (w : World F) where
  -- The logs of a history from the block after genesis up to a block.
  abbrev pub seen : ℕ → List Log → List Log
  seen n = within log_block (w.app.genesis + 1) (some n)

  -- The two queries at a block: each answers with a list in which nothing comes twice, and in which
  -- is whoever received a token, and every pair of a wallet of the strategy and its delegate, on the
  -- chain up to the block.
  abbrev pub AnsweredAt : ℕ → Type 0
  AnsweredAt n =
      (addrs : List Text) × (pairs : List (Text × Text)) × (db_get_share_token_holders w.app w.db
          none n
        ≡ ok addrs)
      × (db_find_strategy_delegates w.app w.db none n ≡ ok pairs)
      × Apart addrs
      × ((a : Text) → Mem a addrs ↔ Mem a (receivers (seen n w.transfers)))
      × Apart pairs
      × ((p : Text × Text) → Mem p pairs ↔ Mem p (strategies (seen n w.delegations)))

  -- Of a table that has caught up, the logs up to a known block, and those of the chain after genesis
  -- up to it, have the same members.
  module _ {Row : Type 0} (table : Table Row) (history : List Log) (c : Cursor Row) (n : ℕ)
      (caught : Caught table history c) (known_n : n ≤ known table c) where
    abbrev stored_logs : List Log
    stored_logs = within log_block 0 (some n) (map table.log_of c.rows)

    abbrev chain_logs : List Log
    chain_logs = within log_block (c.genesis + 1) (some n) history

    stored-Mem : All (λ l. Mem l chain_logs) stored_logs
    stored-Mem =
        let from : All (λ l. Mem l history × (c.genesis + 1 ≤ log_block l))
            (map table.log_of c.rows) =
          All-log_of table (λ l. Mem l history × (c.genesis + 1 ≤ log_block l)) c.rows
            (All-weaken (λ r (m, l, _, _). (m, l)) c.rows caught.rows_of) in
        All-weaken
          (λ l ((m, after), q).
            mem-within log_block (c.genesis + 1) (some n) history l m (ground (arith, after, q)))
          stored_logs
          (All-zip _ _ stored_logs
            (All-within log_block (λ l. Mem l history × (c.genesis + 1 ≤ log_block l)) 0 (some n)
              (map table.log_of c.rows) from)
            (within-in_range log_block 0 (some n) (map table.log_of c.rows)))

    chain-Mem : All (λ l. Mem l stored_logs) chain_logs
    chain-Mem =
        All-weaken
          (λ l (old, q).
            mem-within log_block 0 (some n) (map table.log_of c.rows) l
              (old (ground (arith, q)) (ground (arith, q, known_n))) (ground (arith, q)))
          chain_logs
          (All-zip _ _ chain_logs
            (All-within log_block
              (λ l.
                c.genesis + 1 ≤ log_block l
                → log_block l ≤ known table c
                → Mem l (map table.log_of c.rows))
              (c.genesis + 1) (some n) history caught.all_of)
            (within-in_range log_block (c.genesis + 1) (some n) history))

  caught-AnsweredAt :
      (n : ℕ) → IsCaught geth w → n ≤ (db_get_latest_block w.app w.db none none).0 → AnsweredAt n
  unfolding db_get_share_token_holders db_find_strategy_delegates
  caught-AnsweredAt n caught known_n =
      let by : n ≤ min (delegations_known geth w.app w.db) (transfers_known geth w.app w.db) =
        subst (λ m. n ≤ m) (latest-known geth w.app w.db) known_n in
      let ts = transfers geth w.app in
      let ds = delegations geth w.app in
      let tc = transfers_at (w.app, w.db) in
      let dc = delegations_at (w.app, w.db) in
      let tk : n ≤ known ts tc = omega arith in
      let dk : n ≤ known ds dc = omega arith in
      let received = stored_logs ts w.transfers tc n caught.transfers_caught tk in
      let set = stored_logs ds w.delegations dc n caught.delegations_caught dk in
      let holders : holders_where n w.app.chain_id w.db.sh_tkn_transfer ≡ receivers received =
        holders_where-receivers geth w.app n w.app.chain_id w.db.sh_tkn_transfer (
          All-weaken (λ r (_, _, on, _). on) w.db.sh_tkn_transfer
            caught.transfers_caught.rows_of) in
      let found : strategy_where n w.app.chain_id w.db.delegates ≡ strategies set =
        strategy_where-strategies geth w.app n w.app.chain_id w.db.delegates
          (All-weaken (λ r (_, _, on, _). on) w.db.delegates caught.delegations_caught.rows_of) in
      (
        distinct text_beq (receivers received),
        distinct pair_beq (strategies set),
        ap (λ xs. ok (distinct text_beq xs)) holders,
        ap (λ xs. ok (distinct pair_beq xs)) found,
        distinct-Apart text_beq text_beq_iff (receivers received),
        (λ a.
            let same = mem-distinct text_beq text_beq_iff a (receivers received) in
            (
              (λ m.
                  receivers-Mem received (seen n w.transfers) a
                    (stored-Mem ts w.transfers tc n caught.transfers_caught tk) (same.0 m)),
              (λ m. same.1 (
                  receivers-Mem (seen n w.transfers) received a
                    (chain-Mem ts w.transfers tc n caught.transfers_caught tk) m)),
            )),
        distinct-Apart pair_beq pair_beq_iff (strategies set),
        (λ p.
            let same = mem-distinct pair_beq pair_beq_iff p (strategies set) in
            (
              (λ m.
                  strategies-Mem set (seen n w.delegations) p
                    (stored-Mem ds w.delegations dc n caught.delegations_caught dk) (same.0 m)),
              (λ m. same.1 (
                  strategies-Mem (seen n w.delegations) set p
                    (chain-Mem ds w.delegations dc n caught.delegations_caught dk) m)),
            )),
      )

-- The service runs both goroutines and starts again, one after the other in whatever order, while the
-- chain grows at any time, also while a goroutine reads: each run has asked for the head at some time
-- before, its nodes answer from the history that the chain has by then, with what is behind that head,
-- or fail; no call of the database fails, so that it refuses none of the rows found; and a head and its
-- successor are numbers of 64 bits. Then, from tables that have caught up with the chain, for every
-- block up to the latest known one, the query for the holders returns exactly those who received a
-- share token on the chain after genesis up to that block, and the query for the delegations exactly
-- the pairs of a wallet and a delegate that were set for the strategy, each once.
pub Reach-AnsweredAt :
    {F : Type 0} (geth : Geth) (w v : World F) (n : ℕ)
    → IsCaught geth w
    → Reach geth w v
    → n ≤ (db_get_latest_block v.app v.db none none).0
    → AnsweredAt geth v n
Reach-AnsweredAt geth w v n caught lives =
    caught-AnsweredAt geth v n (Reach-IsCaught geth caught lives)
