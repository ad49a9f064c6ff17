-- ===== src/Filterer.antt =====
-- internal/filterer/filterer.go: events read from a node in windows of blocks.
pub mod Window
pub mod Complete
pub mod Events
pub mod Create
use d8x_etherfi.Base.{
  ℕ, zero, suc, ◌+◌, ◌/◌, ◌%◌, ◌^◌, ◌≡◌, Result, ok, err, Error, List, [], ◌∷◌, ◌++◌, map,
  if◌then◌else◌, leb, ltb, eqb, Option, none, some, Text, String,
}
use d8x_etherfi.Base.Int.{ℤ, pos, int64}
use d8x_etherfi.Chain.{Address, Geth, Pool}
use d8x_etherfi.Utils.Address.{to_lower}
use mathlib.Core.Bool.{Bool}
use Prim.Native.String.{◌++◌ as str_append}

-- The bound contracts' events, with the block of `event.Raw`.
pub record SetDelegateEvent : Type 0 where
  pub trader : Address
  pub delegate : Address
  pub index : ℕ
  pub block_number : ℕ

pub record TransferEvent : Type 0 where
  pub from : Address
  pub to : Address
  pub block_number : ℕ

pub record Delegate : Type 0 where
  pub addr : Text
  pub delegate : Text
  pub index : ℤ
  pub block_nr : ℤ

pub record Transfer : Type 0 where
  pub from : Text
  pub to : Text
  pub block_nr : ℤ

-- What a slice of `interface{}` holds.
pub data Log : Type 0 where
  delegate_log : Delegate → Log
  transfer_log : Transfer → Log

-- The bodies of `processDelegateEvents` and `processTransferEvents`.
unfoldable pub process_delegate_event : Geth → SetDelegateEvent → Log
process_delegate_event geth event = delegate_log (record {
  addr = to_lower (geth.hex event.trader);
  delegate = to_lower (geth.hex event.delegate);
  index = int64 (pos event.index);
  block_nr = int64 (pos event.block_number);
})

unfoldable pub process_transfer_event : Geth → TransferEvent → Log
process_transfer_event geth event = transfer_log (record {
  from = to_lower (geth.hex event.from);
  to = to_lower (geth.hex event.to);
  block_nr = int64 (pos event.block_number);
})

-- What the filterer takes from its node.
pub record EventNode (W Client Manager Erc20 : Type 0) : Type 0 where
  pub header_by_number : Client → W → Result ℕ × W
  pub new_manager : Address → Client → Result Manager
  pub new_erc20 : Address → Client → Result Erc20
  pub filter_set_delegate : Manager → ℕ → Option ℕ → W → Result (List SetDelegateEvent) × W
  pub filter_transfer : Erc20 → ℕ → Option ℕ → W → Result (List TransferEvent) × W

-- How far a scan came: the start of the next window, the logs so far, and the error that stopped it.
pub record Scan (W L : Type 0) : Type 0 where
  pub start_block : ℕ
  pub logs : List L
  pub failure : Option Error
  pub world : W

module _ {W L : Type 0} (fetch : ℕ → Option ℕ → W → Result (List L) × W) (now_block : ℕ) where
  -- The inner loop: windows of `delta + 1` blocks, the last one open. `fuel` bounds the windows.
  unfoldable pub scan : ℕ → ℕ → ℕ → List L → W → Scan W L
  scan zero delta start logs w = record {
    start_block = start;
    logs = logs;
    failure = some "out of fuel";
    world = w;
  }
  scan (suc fuel) delta start logs w =
      let end_block = (start + delta) % 2 ^ 64 in
      let (r, w') = fetch start (if leb now_block end_block then none else some end_block) w in
      elim r [
        | err e ↦ record { start_block = start; logs = logs; failure = some e; world = w' }
        | ok es ↦
            let rest = scan fuel delta ((end_block + 1) % 2 ^ 64) (logs ++ es) w' in
            if leb now_block end_block
            then record { start_block = start; logs = logs ++ es; failure = none; world = w' }
            else rest
      ]

  -- The outer loop: after a failure the scan goes on where it stopped, with half the window. `n`
  -- more trials may follow this one.
  unfoldable pub trials : ℕ → ℕ → ℕ → List L → W → Scan W L
  unfolding scan
  trials zero delta start logs w = scan (now_block + 1) delta start logs w
  trials (suc n) delta start logs w =
      let s = scan (now_block + 1) delta start logs w in
      elim s.failure [ none ↦ s | some _ ↦ trials n (delta / 2) s.start_block s.logs s.world ]

-- The three values that `FilterEvents` returns.
pub record Filtered (L : Type 0) : Type 0 where
  pub logs : List L
  pub block : ℕ
  pub failure : Option Error

abbrev failed : {L : Type 0} → Error → Filtered L
failed e = record { logs = []; block = 0; failure = some e }

-- The trials, and the end of `FilterEvents`.
unfoldable pub read_events :
    {W : Type 0} → ℕ → ℕ → (ℕ → Option ℕ → W → Result (List Log) × W) → W → Filtered Log × W
unfolding trials
read_events now_block start_block fetch w =
    let s = trials fetch now_block 6 10_000 start_block [] w in
    (
      elim s.failure [
        | none ↦ record { logs = s.logs; block = now_block; failure = none }
        | some e ↦ record { logs = s.logs; block = 0; failure = some e }
      ],
      s.world,
    )

-- `FilterTransferEvts` and `FilterDelegateEvts` drop the logs of a failure.
abbrev pub wrapped : {W : Type 0} → Filtered Log × W → Filtered Log × W
wrapped (f, w) = elim f.failure [
  | none ↦ (f, w)
  | some e ↦
      (record { logs = []; block = f.block; failure = some (str_append "TransferEvents:" e) }, w)
]

-- `EventType`
abbrev pub set_delegate_event : ℕ
set_delegate_event = 0

abbrev pub token_transfer_event : ℕ
token_transfer_event = 1

module _ {W Client Manager Erc20 : Type 0} (geth : Geth) (pool : Pool W Client)
    (node : EventNode W Client Manager Erc20) (perp_proxy pool_share_tkn_addr : Address) where
  -- One window's query, and the events as the code stores them.
  abbrev pub fetch_delegates : Client → Manager → ℕ → Option ℕ → W → Result (List Log) × W
  fetch_delegates client ctrct start end_block w =
      let (r, w') = node.filter_set_delegate ctrct start end_block (pool.wait_for_token client w) in
      (elim r [ ok es ↦ ok (map (process_delegate_event geth) es) | err e ↦ err e ], w')

  abbrev pub fetch_transfers : Client → Erc20 → ℕ → Option ℕ → W → Result (List Log) × W
  fetch_transfers client ctrct start end_block w =
      let (r, w') = node.filter_transfer ctrct start end_block (pool.wait_for_token client w) in
      (elim r [ ok es ↦ ok (map (process_transfer_event geth) es) | err e ↦ err e ], w')

  unfoldable pub filter_events : ℕ → ℕ → ℕ → W → Filtered Log × W
  unfolding read_events
  filter_events event_type start_block end_block w =
      let (client, w1) = pool.get_next_rpc w in
      let (header, w2) = node.header_by_number client w1 in
      elim header [
        | err e ↦ (failed (str_append "failed to get block header: " e), w2)
        | ok now_block ↦
            let last : ℕ = if eqb end_block 0 then now_block else end_block in
            let delegates = λ (ctrct : Manager).
              read_events now_block start_block (fetch_delegates client ctrct) w2 in
            let transfers = λ (ctrct : Erc20).
              read_events now_block start_block (fetch_transfers client ctrct) w2 in
            if ltb last start_block
            then (failed "endblock must be after startblock", w2)
            else if eqb event_type set_delegate_event
            then (elim (node.new_manager perp_proxy client) [
              | err e ↦ (failed e, w2)
              | ok c ↦ delegates c
            ])
            else if eqb event_type token_transfer_event
            then (elim (node.new_erc20 pool_share_tkn_addr client) [
              | err e ↦ (failed e, w2)
              | ok c ↦ transfers c
            ])
            else (failed "unsupported event type", w2)
      ]

  unfoldable pub filter_transfer_evts : ℕ → ℕ → W → Filtered Log × W
  unfolding filter_events
  filter_transfer_evts start_block end_block w =
      wrapped (filter_events token_transfer_event start_block end_block w)

  unfoldable pub filter_delegate_evts : ℕ → ℕ → W → Filtered Log × W
  unfolding filter_events
  filter_delegate_evts start_block end_block w =
      wrapped (filter_events set_delegate_event start_block end_block w)
