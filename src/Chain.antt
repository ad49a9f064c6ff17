-- ===== src/Chain.antt =====
-- What the service takes from code outside the repository: go-ethereum's addresses, the bound
-- contracts, forta's multicall and the D8X SDK; and the interface of the RPC handler, which
-- internal/utils/rpchandler.go fills.
-- `W` is the state of the outside world and of the handler: an answer of a node may depend on all
-- that happened before, so no two calls need agree.
use d8x_etherfi.Base.{ℕ, String, Text, Result, Option, List}
use d8x_etherfi.Base.Int.{ℤ}

-- `common.Address`: 20 bytes, as the number that they write. The zero value is 0.
abbrev pub Address : Type 0
Address = ℕ

-- go-ethereum's `Address.Hex` and `HexToAddress`.
pub record Geth : Type 0 where
  pub hex : Address → Text
  pub hex_to_address : Text → Address

-- The RPC handler as its users see it.
pub record Pool (W Client : Type 0) : Type 0 where
  pub get_rpc : W → Client
  pub get_next_rpc : W → Client × W
  pub wait_for_token : Client → W → W

-- A call that the service packs into a multicall: the contract, the method and its arguments.
-- Either method has one number for its output.
pub data Call (Contract : Type 0) : Type 0 where
  balance_of : Contract → Address → Call Contract
  get_available_cash : Contract → ℤ → Address → Call Contract

-- What the nodes answer. A block number `none` stands for the latest block, for which Go passes no
-- options or empty ones.
pub record Node (W Client Contract Caller Erc20 Manager : Type 0) : Type 0 where
  -- multicall
  pub new_contract : String → Text → Result Contract
  pub new_caller : Client → Result Caller
  pub call : Caller → Option ℤ → List (Call Contract) → W → Result (List ℤ) × W
  -- the bound ERC-20 contract
  pub new_erc20 : Address → Client → Result Erc20
  pub erc20_balance_of : Erc20 → Option ℤ → Address → W → Result ℤ × W
  pub erc20_total_supply : Erc20 → Option ℤ → W → Result ℤ × W
  pub erc20_decimals : Erc20 → Option ℤ → W → Result ℕ × W
  -- the bound perpetual manager
  pub new_manager : Client → Address → Manager
  pub count_active_perp_accounts : Manager → Option ℤ → ℤ → W → Result ℕ × W
  pub get_active_perp_accounts_by_chunks :
      Manager → Option ℤ → ℤ → ℕ → ℕ → W → Result (List Address) × W

-- The SDK's `ABDKToDecN`, from the contract's 64.64 fixed point to the token's decimals.
abbrev pub ToDecN : Type 0
ToDecN = ℤ → ℕ → ℤ
