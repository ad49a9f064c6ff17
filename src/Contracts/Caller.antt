-- ===== src/Contracts/Caller.antt =====
-- The reads of `Erc20Caller`. `none` is a panic.
use d8x_etherfi.Base.{ℕ, List, [], ◌∷◌, Option, Text, String, Result}
use d8x_etherfi.Base.Int.{ℤ}
use d8x_etherfi.Chain.{Address}
use d8x_etherfi.Contracts.{Bind, Erc20Caller, first_output}

module _ {W Backend Abi Bound CallOpts TransactOpts Tx Value : Type 0}
    (bind : Bind W Backend Abi Bound CallOpts TransactOpts Tx Value) (c : Erc20Caller Bound) where
  -- One call, and its first output.
  abbrev pub read :
      {A : Type 0} → (Value → Option A) → CallOpts → String → List Value → W → Option (Result A) × W
  read convert opts method params w =
      let (out, w') = bind.call c.contract opts method params w in (first_output convert out, w')

  unfoldable pub allowance : CallOpts → Address → Address → W → Option (Result ℤ) × W
  allowance opts owner spender =
      read bind.to_int opts "allowance" (bind.of_address owner ∷ bind.of_address spender ∷ [])

  unfoldable pub balance_of : CallOpts → Address → W → Option (Result ℤ) × W
  balance_of opts account = read bind.to_int opts "balanceOf" (bind.of_address account ∷ [])

  unfoldable pub decimals : CallOpts → W → Option (Result ℕ) × W
  decimals opts = read bind.to_uint8 opts "decimals" []

  unfoldable pub name : CallOpts → W → Option (Result Text) × W
  name opts = read bind.to_string opts "name" []

  unfoldable pub symbol : CallOpts → W → Option (Result Text) × W
  symbol opts = read bind.to_string opts "symbol" []

  unfoldable pub total_supply : CallOpts → W → Option (Result ℤ) × W
  total_supply opts = read bind.to_int opts "totalSupply" []
