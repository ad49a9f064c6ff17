-- ===== src/Contracts/CallerSession.antt =====
-- `Erc20CallerSession`: the reads with the options of the session.
use d8x_etherfi.Base.{ℕ, Option, Text, Result}
use d8x_etherfi.Base.Int.{ℤ}
use d8x_etherfi.Chain.{Address}
use d8x_etherfi.Contracts.{Bind, Erc20CallerSession}
use d8x_etherfi.Contracts.Caller

module _ {W Backend Abi Bound CallOpts TransactOpts Tx Value : Type 0}
    (bind : Bind W Backend Abi Bound CallOpts TransactOpts Tx Value)
    (s : Erc20CallerSession Bound CallOpts) where
  unfoldable pub allowance : Address → Address → W → Option (Result ℤ) × W
  unfolding Caller.allowance
  allowance owner spender = Caller.allowance bind s.contract s.call_opts owner spender

  unfoldable pub balance_of : Address → W → Option (Result ℤ) × W
  unfolding Caller.balance_of
  balance_of account = Caller.balance_of bind s.contract s.call_opts account

  unfoldable pub decimals : W → Option (Result ℕ) × W
  unfolding Caller.decimals
  decimals = Caller.decimals bind s.contract s.call_opts

  unfoldable pub name : W → Option (Result Text) × W
  unfolding Caller.name
  name = Caller.name bind s.contract s.call_opts

  unfoldable pub symbol : W → Option (Result Text) × W
  unfolding Caller.symbol
  symbol = Caller.symbol bind s.contract s.call_opts

  unfoldable pub total_supply : W → Option (Result ℤ) × W
  unfolding Caller.total_supply
  total_supply = Caller.total_supply bind s.contract s.call_opts
