-- ===== src/Contracts.antt =====
-- internal/contracts/erc20.go, the binding of the ERC-20 contract that abigen wrote, over
-- go-ethereum's `bind` and `abi`.
pub mod Caller
pub mod Transactor
pub mod Raw
pub mod Session
pub mod CallerSession
pub mod TransactorSession
pub mod Events
pub mod Watch
use d8x_etherfi.Base.{ℕ, List, [], ◌∷◌, Option, none, some, Text, String, Result, ok, err}
use d8x_etherfi.Base.Int.{ℤ}
use d8x_etherfi.Chain.{Address}

-- `Erc20MetaData`, by name
abbrev pub erc20_meta_data : String
erc20_meta_data = "Erc20MetaData"

-- go-ethereum: the bound contract, the values of a call, and `abi.ConvertType` to the type of a
-- result, for which `none` is a panic. A backend that is absent is Go's `nil`.
pub record Bind (W Backend Abi Bound CallOpts TransactOpts Tx Value : Type 0) : Type 0 where
  pub get_abi : String → Result Abi
  pub new_bound_contract : Address → Abi → Option Backend → Option Backend → Option Backend → Bound
  pub call : Bound → CallOpts → String → List Value → W → Result (List Value) × W
  pub transact : Bound → TransactOpts → String → List Value → W → Result Tx × W
  pub transfer : Bound → TransactOpts → W → Result Tx × W
  pub of_address : Address → Value
  pub of_int : ℤ → Value
  pub to_int : Value → Option ℤ
  pub to_uint8 : Value → Option ℕ
  pub to_string : Value → Option Text

pub record Erc20Caller (Bound : Type 0) : Type 0 where
  pub contract : Bound

pub record Erc20Transactor (Bound : Type 0) : Type 0 where
  pub contract : Bound

pub record Erc20Filterer (Bound : Type 0) : Type 0 where
  pub contract : Bound

pub record Erc20 (Bound : Type 0) : Type 0 where
  pub caller : Erc20Caller Bound
  pub transactor : Erc20Transactor Bound
  pub filterer : Erc20Filterer Bound

-- The sessions: a binding with the options of its calls.
pub record Erc20Session (Bound CallOpts TransactOpts : Type 0) : Type 0 where
  pub contract : Erc20 Bound
  pub call_opts : CallOpts
  pub transact_opts : TransactOpts

pub record Erc20CallerSession (Bound CallOpts : Type 0) : Type 0 where
  pub contract : Erc20Caller Bound
  pub call_opts : CallOpts

pub record Erc20TransactorSession (Bound TransactOpts : Type 0) : Type 0 where
  pub contract : Erc20Transactor Bound
  pub transact_opts : TransactOpts

module _ {W Backend Abi Bound CallOpts TransactOpts Tx Value : Type 0}
    (bind : Bind W Backend Abi Bound CallOpts TransactOpts Tx Value) where
  unfoldable pub bind_erc20 :
      Address → Option Backend → Option Backend → Option Backend → Result Bound
  bind_erc20 address caller transactor filterer = elim (bind.get_abi erc20_meta_data) [
    | err e ↦ err e
    | ok parsed ↦ ok (bind.new_bound_contract address parsed caller transactor filterer)
  ]

  unfoldable pub new_erc20 : Address → Backend → Result (Erc20 Bound)
  unfolding bind_erc20
  new_erc20 address backend =
      elim (bind_erc20 address (some backend) (some backend) (some backend)) [
        | err e ↦ err e
        | ok contract ↦ ok (record {
          caller = record { contract = contract };
          transactor = record { contract = contract };
          filterer = record { contract = contract };
        })
      ]

  unfoldable pub new_erc20_caller : Address → Backend → Result (Erc20Caller Bound)
  unfolding bind_erc20
  new_erc20_caller address caller = elim (bind_erc20 address (some caller) none none) [
    | err e ↦ err e
    | ok contract ↦ ok (record { contract = contract })
  ]

  unfoldable pub new_erc20_transactor : Address → Backend → Result (Erc20Transactor Bound)
  unfolding bind_erc20
  new_erc20_transactor address transactor = elim (bind_erc20 address none (some transactor) none) [
    | err e ↦ err e
    | ok contract ↦ ok (record { contract = contract })
  ]

  unfoldable pub new_erc20_filterer : Address → Backend → Result (Erc20Filterer Bound)
  unfolding bind_erc20
  new_erc20_filterer address filterer = elim (bind_erc20 address none none (some filterer)) [
    | err e ↦ err e
    | ok contract ↦ ok (record { contract = contract })
  ]

-- The end of a read: the first output, converted. `none` is a panic, for no output or one of another
-- type.
abbrev pub first_output :
    {Value A : Type 0} → (Value → Option A) → Result (List Value) → Option (Result A)
first_output convert (err e) = some (err e)
first_output convert (ok []) = none
first_output convert (ok (out ∷ outs)) = elim (convert out) [
  | none ↦ none
  | some value ↦ some (ok value)
]
