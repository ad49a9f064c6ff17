-- ===== src/Etherfi/RunFilter/Follows.antt =====
-- The second goroutine over the filterer itself.
use d8x_etherfi.Base.{
  ℕ, ◌+◌, ◌^◌, ◌≤◌, ◌<◌, ◌≡◌, List, [], ◌∷◌, map, Option, none, some, Error, ok, err, All, arith,
  ltb, true,
}
use mathlib.Core.Path.{subst}
use d8x_etherfi.Chain.{Address, Geth, Pool}
use d8x_etherfi.Filterer.{
  TransferEvent, process_transfer_event, EventNode, filter_events, filter_transfer_evts,
}
use d8x_etherfi.Filterer.Window.{within, IsSorted, map-IsSorted, map-within}
use d8x_etherfi.Filterer.Events.{
  log_block, AllOrNone, AllOrFailed-AllOrNone, transfer_log-block, filter_transfer_evts_lem,
}
use d8x_etherfi.Etherfi.App.{App}
use d8x_etherfi.Etherfi.Store.{Db, TransferRow}
use d8x_etherfi.Etherfi.RunFilter.{Answers, run_transfers}
use d8x_etherfi.Etherfi.RunFilter.InStep.{Reads, NeverFails, NeverFails-Takes}
use d8x_etherfi.Etherfi.RunFilter.Views.{transfers, transfers_at}
use d8x_etherfi.Etherfi.RunFilter.Synced.{
  IsTransfer, TransfersSynced, transfers_known, run_transfers-Synced,
}

All-IsTransfer :
    (geth : Geth) (history : List TransferEvent)
    → All IsTransfer (map (process_transfer_event geth) history)
unfolding process_transfer_event
All-IsTransfer geth [] = tt
All-IsTransfer geth (e ∷ es) = (tt, All-IsTransfer geth es)

All-up_to :
    (geth : Geth) (head : ℕ) (history : List TransferEvent)
    → All (λ e. log_block (process_transfer_event geth e) ≡ e.block_number) history
    → All (λ e. e.block_number ≤ head) history
    → All (λ l. log_block l ≤ head) (map (process_transfer_event geth) history)
All-up_to geth head [] h k = tt
All-up_to geth head (e ∷ es) (h, hs) (k, ks) = (rw h k, All-up_to geth head es hs ks)

module _ {W Client Manager Erc20 : Type 0} (geth : Geth) (pool : Pool W Client)
    (node : EventNode W Client Manager Erc20) (perp_proxy pool_share_tkn_addr : Address) (head : ℕ)
    (fits : head + 10_001 < 2 ^ 64) (w : W) (ctrct : Erc20) (history : List TransferEvent)
    (sorted : IsSorted (λ e. e.block_number) history)
    (up_to_head : All (λ e. e.block_number ≤ head) history)
    (small : All (λ e. e.block_number < 2 ^ 63) history)
    (answers : (a : ℕ) (b : Option ℕ) (v : W) (es : List TransferEvent)
      → (node.filter_transfer ctrct a b v).0 ≡ ok es
      → es ≡ within (λ e. e.block_number) a b history)
    (at_head : (node.header_by_number (pool.get_next_rpc w).0 (pool.get_next_rpc w).1).0 ≡ ok head)
    (bound : node.new_erc20 pool_share_tkn_addr (pool.get_next_rpc w).0 ≡ ok ctrct) where
  filter_transfer_evts-late :
      (start : ℕ)
      → head < start
      → (e : Error) × ((filter_transfer_evts geth pool node perp_proxy pool_share_tkn_addr start 0
            w).0.failure
          ≡ some e)
  unfolding filter_transfer_evts filter_events
  filter_transfer_evts-late start h =
      let late : ltb head start ≡ true = ground arith in
      (
        "TransferEvents:endblock must be after startblock",
        rw (filter_transfer_evts, filter_events, at_head) (rw late),
      )

  pub filter_transfer_evts-Reads :
      Reads IsTransfer
        (map (process_transfer_event geth) history)
        head
        (λ start. (filter_transfer_evts geth pool node perp_proxy pool_share_tkn_addr start 0 w).0)
  filter_transfer_evts-Reads =
      let same = transfer_log-block geth history small in
      let process = process_transfer_event geth in
      record {
        sorted = map-IsSorted (λ e. e.block_number) log_block process history same sorted;
        kind = All-IsTransfer geth history;
        up_to_head = All-up_to geth head history same up_to_head;
        all_or_none = λ start h.
            subst
              (λ t.
                AllOrNone t head
                  (filter_transfer_evts geth pool node perp_proxy pool_share_tkn_addr start 0 w).0)
              (map-within (λ e. e.block_number) log_block process start none history same)
              (AllOrFailed-AllOrNone
                (λ e.
                  (a : ℕ) × (b : Option ℕ) × (v : W) × ((node.filter_transfer ctrct a b v).0
                    ≡ err e))
                (map process (within (λ e. e.block_number) start none history)) head
                (filter_transfer_evts geth pool node perp_proxy pool_share_tkn_addr start 0 w).0
                (filter_transfer_evts_lem geth pool node perp_proxy pool_share_tkn_addr head start
                  fits w ctrct history sorted small answers at_head bound h));
        too_late = filter_transfer_evts-late;
      }

  -- One run of the goroutine that stores transfers, over nodes that agree on the history of the
  -- transfers up to a head, and a database that does not fail, from a table in step with the
  -- chain: it does not panic, and leaves the table in step, whether or not the nodes failed on the
  -- way.
  pub run_transfers-filter_transfer_evts :
      {F : Type 0} (from_db : Answers TransferRow) (app : App F) (db : Db)
      → NeverFails from_db
      → transfers_known geth app db + 1 < 2 ^ 64
      → TransfersSynced geth (map (process_transfer_event geth) history) app db
      → (a : App F) × (d : Db) × (run_transfers geth
            (λ start.
              (filter_transfer_evts geth pool node perp_proxy pool_share_tkn_addr start 0 w).0)
            from_db
            (app, db)
          ≡ some (a, d))
        × TransfersSynced geth (map (process_transfer_event geth) history) a d
  run_transfers-filter_transfer_evts from_db app db db_ok room synced =
      let (n, rows, run, in_step, _) =
        run_transfers-Synced geth (map (process_transfer_event geth) history) head
          (λ start.
            (filter_transfer_evts geth pool node perp_proxy pool_share_tkn_addr start 0 w).0)
          app db from_db filter_transfer_evts-Reads
          (NeverFails-Takes (transfers geth app)
            (λ start.
              (filter_transfer_evts geth pool node perp_proxy pool_share_tkn_addr start 0 w).0)
            from_db (transfers_at (app, db)) db_ok)
          room synced in
      (record app { last_transfers = n }, record db { sh_tkn_transfer = rows }, run, in_step)
