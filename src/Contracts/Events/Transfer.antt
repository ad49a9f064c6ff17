-- ===== src/Contracts/Events/Transfer.antt =====
-- The iterator, the filter and the parser of the Transfer events.
use d8x_etherfi.Base.{Bool, List, Option, Result, Error}
use d8x_etherfi.Chain.{Address}
use d8x_etherfi.Contracts.{Erc20Filterer}
use d8x_etherfi.Contracts.Events.{Event, Erc20Transfer, Unpack, Feed, Iterator}
use d8x_etherfi.Contracts.Events

module _ {W Bound FilterOpts Value Sub RawLog : Type 0}
    (feed : Feed W Bound FilterOpts Value Sub RawLog)
    (unpack : Unpack Bound RawLog Erc20Transfer) where
  -- `Erc20TransferIterator`
  abbrev pub It : Type 0
  It = Iterator Erc20Transfer RawLog Bound Sub

  unfoldable pub next : It → W → Bool × It × W
  unfolding Events.next
  next = Events.next feed unpack

  abbrev pub error : It → Option Error
  error = Events.error feed unpack

  unfoldable pub close : It → W → Option Error × W
  unfolding Events.close
  close = Events.close feed unpack

  unfoldable pub filter :
      (Address → Value)
      → Erc20Filterer Bound
      → FilterOpts
      → List Address
      → List Address
      → W
      → Result It × W
  unfolding Events.filter
  filter = Events.filter feed unpack "Transfer"

  unfoldable pub parse : Erc20Filterer Bound → RawLog → Result (Event Erc20Transfer RawLog)
  unfolding Events.parse
  parse = Events.parse feed unpack "Transfer"
