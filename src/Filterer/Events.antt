-- ===== src/Filterer/Events.antt =====
-- What `FilterTransferEvts` and `FilterDelegateEvts` return, over nodes that agree on one history.
use d8x_etherfi.Base.{
  ℕ, ◌+◌, ◌≤◌, ◌<◌, ◌^◌, ◌≡◌, refl, ap, sym, ◌∙◌, List, [], ◌∷◌, map, ltb, Option, none, some, All,
  false, arith, inl, inr, Result, ok, err, Option-cases, ok_injective, err_injective, Error,
}
use Prim.Native.String.{◌++◌ as str_append}
use d8x_etherfi.Base.Int.{pos_part, int64-pos}
use d8x_etherfi.Chain.{Address, Geth, Pool}
use d8x_etherfi.Filterer.{
  SetDelegateEvent, TransferEvent, Log, delegate_log, transfer_log, process_transfer_event,
  process_delegate_event, EventNode, Filtered, filter_events, filter_transfer_evts,
  filter_delegate_evts, trials, fetch_transfers, fetch_delegates, read_events, wrapped,
  token_transfer_event, set_delegate_event,
}
use d8x_etherfi.Filterer.Window.{within, IsSorted, map-within, map-IsSorted}
use d8x_etherfi.Filterer.Complete.{trials-Covers, Covers, Ends}
use mathlib.Core.Path.{subst, subst₂}

abbrev pub log_block : Log → ℕ
log_block (delegate_log d) = pos_part d.block_nr
log_block (transfer_log t) = pos_part t.block_nr

-- Either all the events wanted and the block they reach to, or no event, block 0 and an error.
abbrev pub AllOrNone : List Log → ℕ → Filtered Log → Type 0
AllOrNone wanted now_block f = elim f.failure [
  | none ↦ (f.logs ≡ wanted) × (f.block ≡ now_block)
  | some e ↦ (f.logs ≡ []) × (f.block ≡ 0)
]

-- The same, with an error that stands for a failure of a node.
abbrev pub AllOrFailed : (Error → Type 0) → List Log → ℕ → Filtered Log → Type 0
AllOrFailed Fails wanted now_block f = elim f.failure [
  | none ↦ (f.logs ≡ wanted) × (f.block ≡ now_block)
  | some e ↦
      (f.logs ≡ [])
      × (f.block ≡ 0)
      × ((cause : Error) × (e ≡ str_append "TransferEvents:" cause) × Fails cause)
]

AllOrFailed-cause :
    (Fails Others : Error → Type 0) (wanted : List Log) (now_block : ℕ) (f : Filtered Log)
    → ((e : Error) → Fails e → Others e)
    → AllOrFailed Fails wanted now_block f
    → AllOrFailed Others wanted now_block f
AllOrFailed-cause Fails Others wanted now_block f h all = elim (Option-cases f.failure) [
  | inl q ↦ rw q (rw q at all)
  | inr (e, q) ↦
      let (none_left, start, (cause, says, fails)) = rw q at all in
      rw q (none_left, start, (cause, says, h cause fails))
]

pub AllOrFailed-AllOrNone :
    (Fails : Error → Type 0) (wanted : List Log) (now_block : ℕ) (f : Filtered Log)
    → AllOrFailed Fails wanted now_block f
    → AllOrNone wanted now_block f
AllOrFailed-AllOrNone Fails wanted now_block f all = elim (Option-cases f.failure) [
  | inl q ↦ rw q (rw q at all)
  | inr (e, q) ↦ let (none_left, start, _) = rw q at all in rw q (none_left, start)
]

pub AllOrNone-none :
    (wanted : List Log) (now_block : ℕ) (f : Filtered Log)
    → AllOrNone wanted now_block f
    → f.failure ≡ none
    → (f.logs ≡ wanted) × (f.block ≡ now_block)
AllOrNone-none wanted now_block f h e = rw e at h

read_events-AllOrFailed :
    {W : Type 0} (now_block start : ℕ) (fetch : ℕ → Option ℕ → W → Result (List Log) × W)
    (history : List Log) (w : W)
    → IsSorted log_block history
    → ((a : ℕ) (b : Option ℕ) (v : W) (es : List Log)
        → (fetch a b v).0 ≡ ok es
        → es ≡ within log_block a b history)
    → now_block + 10_001 < 2 ^ 64
    → start ≤ now_block
    → AllOrFailed
        (λ e. (a : ℕ) × (b : Option ℕ) × (v : W) × ((fetch a b v).0 ≡ err e))
        (within log_block start none history)
        now_block
        (wrapped (read_events now_block start fetch w)).0
unfolding read_events
read_events-AllOrFailed now_block start fetch history w sorted answers fits h =
    let target = within log_block start none history in
    let s = trials fetch now_block 6 10_000 start [] w in
    let c : Covers log_block fetch now_block history sorted answers target s =
      trials-Covers log_block fetch now_block history sorted answers 6 10_000 start [] target w
        (omega arith) h refl in
    elim (Option-cases s.failure) [
      | inl e ↦
          rw (read_events, e)
            (
              subst
                  (Ends log_block fetch now_block history sorted answers target s.start_block
                    s.logs)
                  e c,
              refl,
            )
      | inr (f, e) ↦
          let (_, _, fails) =
            subst
              (Ends log_block fetch now_block history sorted answers target s.start_block s.logs) e
              c in
          rw (read_events, e) (refl, refl, (f, refl, fails))
    ]

-- A window's query whose events are processed fails as the query itself.
processed_fails :
    {E : Type 0} (process : E → Log) (r : Result (List E)) (e : Error)
    → (elim r as (λ _. Result (List Log)) [ ok es ↦ ok (map process es) | err f ↦ err f ]) ≡ err e
    → r ≡ err e
processed_fails process (ok es) e q = cc
processed_fails process (err f) e q = ap err (err_injective q)

pub transfer_log-block :
    (geth : Geth) (history : List TransferEvent)
    → All (λ e. e.block_number < 2 ^ 63) history
    → All (λ e. log_block (process_transfer_event geth e) ≡ e.block_number) history
unfolding process_transfer_event
transfer_log-block geth [] h = tt
transfer_log-block geth (e ∷ es) (h, hs) =
    (ap pos_part (int64-pos e.block_number h), transfer_log-block geth es hs)

delegate_log-block :
    (geth : Geth) (history : List SetDelegateEvent)
    → All (λ e. e.block_number < 2 ^ 63) history
    → All (λ e. log_block (process_delegate_event geth e) ≡ e.block_number) history
unfolding process_delegate_event
delegate_log-block geth [] h = tt
delegate_log-block geth (e ∷ es) (h, hs) =
    (ap pos_part (int64-pos e.block_number h), delegate_log-block geth es hs)

-- A query that is processed event by event answers with the processed events of its range.
processed_answers :
    {E : Type 0} (blk : E → ℕ) (process : E → Log) (history : List E)
    → All (λ x. log_block (process x) ≡ blk x) history
    → (a : ℕ) (b : Option ℕ) (r : Result (List E))
    → ((es : List E) → r ≡ ok es → es ≡ within blk a b history)
    → (out : List Log)
    → (elim r as (λ _. Result (List Log)) [ ok es ↦ ok (map process es) | err e ↦ err e ]) ≡ ok out
    → out ≡ within log_block a b (map process history)
processed_answers blk process history same a b (ok es) answer out e =
    sym (ok_injective e)
    ∙ ap (map process) (answer es refl)
    ∙ map-within blk log_block process a b history same
processed_answers blk process history same a b (err f) answer out e = cc

module _ {W Client Manager Erc20 : Type 0} (geth : Geth) (pool : Pool W Client)
    (node : EventNode W Client Manager Erc20) (perp_proxy pool_share_tkn_addr : Address)
    (now_block start : ℕ) (fits : now_block + 10_001 < 2 ^ 64) (w : W) where
  abbrev client : Client
  client = (pool.get_next_rpc w).0

  -- If every query that succeeds answers from one history in the order of its blocks, with block
  -- numbers of 63 bits, the head is known and not within 10001 blocks of 2 ^ 64, the contract is bound,
  -- and the start block is not after the head: all transfers of the history from the start block on come back, each once and in order, also
  -- those after the head, while the block that comes back is the head. Or none comes back, with block
  -- 0 and an error that wraps the one with which a node has failed a query for transfers.
  pub filter_transfer_evts_lem :
      (ctrct : Erc20) (history : List TransferEvent)
      → IsSorted (λ e. e.block_number) history
      → All (λ e. e.block_number < 2 ^ 63) history
      → ((a : ℕ) (b : Option ℕ) (v : W) (es : List TransferEvent)
          → (node.filter_transfer ctrct a b v).0 ≡ ok es
          → es ≡ within (λ e. e.block_number) a b history)
      → (node.header_by_number client (pool.get_next_rpc w).1).0 ≡ ok now_block
      → node.new_erc20 pool_share_tkn_addr client ≡ ok ctrct
      → start ≤ now_block
      → AllOrFailed
          (λ e. (a : ℕ) × (b : Option ℕ) × (v : W) × ((node.filter_transfer ctrct a b v).0 ≡ err e))
          (map (process_transfer_event geth) (within (λ e. e.block_number) start none history))
          now_block
          (filter_transfer_evts geth pool node perp_proxy pool_share_tkn_addr start 0 w).0
  unfolding filter_transfer_evts filter_events
  filter_transfer_evts_lem ctrct history sorted small answers head bound h =
      let same = transfer_log-block geth history small in
      let later : ltb now_block start ≡ false = ground arith in
      let fetch = fetch_transfers geth pool node perp_proxy pool_share_tkn_addr client ctrct in
      let w2 = (node.header_by_number client (pool.get_next_rpc w).1).1 in
      let events : filter_events geth pool node perp_proxy pool_share_tkn_addr token_transfer_event
            start 0 w
          ≡ read_events now_block start fetch w2 =
        rw (filter_events, head) (rw (later, bound)) in
      let step = ap wrapped events in
      let target =
        map-within (λ e. e.block_number) log_block (process_transfer_event geth) start none history
          same in
      let fetch_fails : Error → Type 0 =
        λ e. (a : ℕ) × (b : Option ℕ) × (v : W) × ((fetch a b v).0 ≡ err e) in
      let node_fails : Error → Type 0 =
        λ e. (a : ℕ) × (b : Option ℕ) × (v : W) × ((node.filter_transfer ctrct a b v).0 ≡ err e) in
      let found =
        (filter_transfer_evts geth pool node perp_proxy pool_share_tkn_addr start 0 w).0 in
      let wanted =
        map (process_transfer_event geth) (within (λ e. e.block_number) start none history) in
      AllOrFailed-cause fetch_fails node_fails wanted now_block found
        (λ e (a, b, v, fails). (
          a,
          b,
          pool.wait_for_token client v,
          processed_fails (process_transfer_event geth)
              (node.filter_transfer ctrct a b (pool.wait_for_token client v)).0 e fails,
        ))
        (subst₂ (λ t r. AllOrFailed fetch_fails t now_block r.0) (sym target) (sym step)
          (read_events-AllOrFailed now_block start fetch (map (process_transfer_event geth) history)
            w2
            (map-IsSorted (λ e. e.block_number) log_block (process_transfer_event geth) history same
              sorted)
            (λ a b v.
              processed_answers (λ e. e.block_number) (process_transfer_event geth) history same a b
                (node.filter_transfer ctrct a b (pool.wait_for_token client v)).0
                (answers a b (pool.wait_for_token client v)))
            fits h))

  -- If every query that succeeds answers from one history in the order of its blocks, with block
  -- numbers of 63 bits, the head is known and not within 10001 blocks of 2 ^ 64, the contract is bound,
  -- and the start block is not after the head: all delegations of the history from the start block on come back, each once and in order, also
  -- those after the head, while the block that comes back is the head. Or none comes back, with block
  -- 0 and an error that wraps the one with which a node has failed a query for delegations.
  filter_delegate_evts_lem :
      (ctrct : Manager) (history : List SetDelegateEvent)
      → IsSorted (λ e. e.block_number) history
      → All (λ e. e.block_number < 2 ^ 63) history
      → ((a : ℕ) (b : Option ℕ) (v : W) (es : List SetDelegateEvent)
          → (node.filter_set_delegate ctrct a b v).0 ≡ ok es
          → es ≡ within (λ e. e.block_number) a b history)
      → (node.header_by_number client (pool.get_next_rpc w).1).0 ≡ ok now_block
      → node.new_manager perp_proxy client ≡ ok ctrct
      → start ≤ now_block
      → AllOrFailed
          (λ e.
            (a : ℕ) × (b : Option ℕ) × (v : W) × ((node.filter_set_delegate ctrct a b v).0 ≡ err e))
          (map (process_delegate_event geth) (within (λ e. e.block_number) start none history))
          now_block
          (filter_delegate_evts geth pool node perp_proxy pool_share_tkn_addr start 0 w).0
  unfolding filter_delegate_evts filter_events
  filter_delegate_evts_lem ctrct history sorted small answers head bound h =
      let same = delegate_log-block geth history small in
      let later : ltb now_block start ≡ false = ground arith in
      let fetch = fetch_delegates geth pool node perp_proxy pool_share_tkn_addr client ctrct in
      let w2 = (node.header_by_number client (pool.get_next_rpc w).1).1 in
      let events : filter_events geth pool node perp_proxy pool_share_tkn_addr set_delegate_event
            start 0 w
          ≡ read_events now_block start fetch w2 =
        rw (filter_events, head) (rw (later, bound)) in
      let step = ap wrapped events in
      let target =
        map-within (λ e. e.block_number) log_block (process_delegate_event geth) start none history
          same in
      let fetch_fails : Error → Type 0 =
        λ e. (a : ℕ) × (b : Option ℕ) × (v : W) × ((fetch a b v).0 ≡ err e) in
      let node_fails : Error → Type 0 = λ e.
        (a : ℕ) × (b : Option ℕ) × (v : W) × ((node.filter_set_delegate ctrct a b v).0 ≡ err e) in
      let found =
        (filter_delegate_evts geth pool node perp_proxy pool_share_tkn_addr start 0 w).0 in
      let wanted =
        map (process_delegate_event geth) (within (λ e. e.block_number) start none history) in
      AllOrFailed-cause fetch_fails node_fails wanted now_block found
        (λ e (a, b, v, fails). (
          a,
          b,
          pool.wait_for_token client v,
          processed_fails (process_delegate_event geth)
              (node.filter_set_delegate ctrct a b (pool.wait_for_token client v)).0 e fails,
        ))
        (subst₂ (λ t r. AllOrFailed fetch_fails t now_block r.0) (sym target) (sym step)
          (read_events-AllOrFailed now_block start fetch (map (process_delegate_event geth) history)
            w2
            (map-IsSorted (λ e. e.block_number) log_block (process_delegate_event geth) history same
              sorted)
            (λ a b v.
              processed_answers (λ e. e.block_number) (process_delegate_event geth) history same a b
                (node.filter_set_delegate ctrct a b (pool.wait_for_token client v)).0
                (answers a b (pool.wait_for_token client v)))
            fits h))
