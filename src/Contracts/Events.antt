-- ===== src/Contracts/Events.antt =====
-- The events of the binding: parsing a log, and the iterators that `FilterTransfer` and
-- `FilterApproval` return. The two iterators differ in the event alone.
pub mod Drained
pub mod Transfer
pub mod Approval
use d8x_etherfi.Base.{
  Bool, true, false, List, [], ◌∷◌, map, Option, none, some, String, Result, ok, err, Error,
}
use d8x_etherfi.Base.Int.{ℤ}
use d8x_etherfi.Chain.{Address}
use d8x_etherfi.Contracts.{Bind, Erc20Filterer}

-- An event: what is unpacked from a log, and the log. `none` is the zero value of `types.Log`.
pub record Event (Fields RawLog : Type 0) : Type 0 where
  pub fields : Fields
  pub raw : Option RawLog

pub record Erc20Approval : Type 0 where
  pub owner : Address
  pub spender : Address
  pub value : ℤ

pub record Erc20Transfer : Type 0 where
  pub from : Address
  pub to : Address
  pub value : ℤ

-- go-ethereum's `UnpackLog`: the fields as far as it came, and its error.
abbrev pub Unpack : Type 0 → Type 0 → Type 0 → Type 0
Unpack Bound RawLog Fields = Bound → String → RawLog → Fields × Option Error

-- What a blocking `select` over the logs and the errors of a subscription comes to.
pub data Signal (RawLog : Type 0) : Type 0 where
  arrived : RawLog → Signal RawLog
  ended : Option Error → Signal RawLog

-- The logs of a filter: the query, the two ways to wait for its subscription, and the end of it.
pub record Feed (W Bound FilterOpts Value Sub RawLog : Type 0) : Type 0 where
  pub filter_logs : Bound → FilterOpts → String → List (List Value) → W → Result Sub × W
  pub receive : Sub → W → Signal RawLog × W
  pub poll : Sub → W → Option RawLog × W
  pub unsubscribe : Sub → W → W

-- An iterator; `sub` stands for the channel of its logs too.
pub record Iterator (Fields RawLog Bound Sub : Type 0) : Type 0 where
  pub event : Option (Event Fields RawLog)
  pub contract : Bound
  pub event_name : String
  pub sub : Sub
  pub done : Bool
  pub fail : Option Error

module _ {W Bound FilterOpts Value Sub RawLog Fields : Type 0}
    (feed : Feed W Bound FilterOpts Value Sub RawLog) (unpack : Unpack Bound RawLog Fields) where
  abbrev pub It : Type 0
  It = Iterator Fields RawLog Bound Sub

  -- A log becomes the event, or the failure of the iterator.
  abbrev pub deliver : It → RawLog → Bool × It
  deliver it log =
      let (fields, failure) = unpack it.contract it.event_name log in
      elim failure [
        | some e ↦ (
          false,
          record it { event = some (record { fields = fields; raw = none }); fail = some e },
        )
        | none ↦ (true, record it { event = some (record { fields = fields; raw = some log }) })
      ]

  -- The iterator has completed: whatever is there is delivered.
  unfoldable pub next_done : It → W → Bool × It × W
  next_done it w =
      let (found, w') = feed.poll it.sub w in
      elim found [
        | none ↦ (false, it, w')
        | some log ↦ let (more, it') = deliver it log in (more, it', w')
      ]

  -- The iterator is in progress; at the end of the subscription it calls itself, completed.
  unfoldable pub next_waiting : It → W → Bool × It × W
  unfolding next_done
  next_waiting it w =
      let (signal, w') = feed.receive it.sub w in
      elim signal [
        | arrived log ↦ let (more, it') = deliver it log in (more, it', w')
        | ended (some e) ↦ (false, record it { done = true; fail = some e }, w')
        | ended none ↦ next_done (record it { done = true; fail = none }) w'
      ]

  unfoldable pub next : It → W → Bool × It × W
  unfolding next_done next_waiting
  next it w = elim it.fail [
    | some e ↦ (false, it, w)
    | none ↦ elim it.done [ true ↦ next_done it w | false ↦ next_waiting it w ]
  ]

  abbrev pub error : It → Option Error
  error it = it.fail

  unfoldable pub close : It → W → Option Error × W
  close it w = (none, feed.unsubscribe it.sub w)

  -- `ParseTransfer` and `ParseApproval` but for the name.
  unfoldable pub parse : String → Erc20Filterer Bound → RawLog → Result (Event Fields RawLog)
  parse event_name c log =
      let (fields, failure) = unpack c.contract event_name log in
      elim failure [ some e ↦ err e | none ↦ ok (record { fields = fields; raw = some log }) ]

  -- `FilterTransfer` and `FilterApproval` but for the name: the rules are the addresses.
  unfoldable pub filter :
      String
      → (Address → Value)
      → Erc20Filterer Bound
      → FilterOpts
      → List Address
      → List Address
      → W
      → Result It × W
  filter event_name of_address c opts first second w =
      let (r, w') =
        feed.filter_logs c.contract opts event_name
          (map of_address first ∷ map of_address second ∷ []) w in
      (
        elim r [
          | err e ↦ err e
          | ok sub ↦ ok (record {
            event = none;
            contract = c.contract;
            event_name = event_name;
            sub = sub;
            done = false;
            fail = none;
          })
        ],
        w',
      )
