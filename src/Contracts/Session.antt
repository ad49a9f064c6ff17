-- ===== src/Contracts/Session.antt =====
-- `Erc20Session`: every method of the binding with the options of the session.
use d8x_etherfi.Base.{ℕ, Option, Text, Result}
use d8x_etherfi.Base.Int.{ℤ}
use d8x_etherfi.Chain.{Address}
use d8x_etherfi.Contracts.{Bind, Erc20Session}
use d8x_etherfi.Contracts.Caller
use d8x_etherfi.Contracts.Transactor

module _ {W Backend Abi Bound CallOpts TransactOpts Tx Value : Type 0}
    (bind : Bind W Backend Abi Bound CallOpts TransactOpts Tx Value)
    (s : Erc20Session Bound CallOpts TransactOpts) where
  unfoldable pub allowance : Address → Address → W → Option (Result ℤ) × W
  unfolding Caller.allowance
  allowance owner spender = Caller.allowance bind s.contract.caller s.call_opts owner spender

  unfoldable pub balance_of : Address → W → Option (Result ℤ) × W
  unfolding Caller.balance_of
  balance_of account = Caller.balance_of bind s.contract.caller s.call_opts account

  unfoldable pub decimals : W → Option (Result ℕ) × W
  unfolding Caller.decimals
  decimals = Caller.decimals bind s.contract.caller s.call_opts

  unfoldable pub name : W → Option (Result Text) × W
  unfolding Caller.name
  name = Caller.name bind s.contract.caller s.call_opts

  unfoldable pub symbol : W → Option (Result Text) × W
  unfolding Caller.symbol
  symbol = Caller.symbol bind s.contract.caller s.call_opts

  unfoldable pub total_supply : W → Option (Result ℤ) × W
  unfolding Caller.total_supply
  total_supply = Caller.total_supply bind s.contract.caller s.call_opts

  unfoldable pub approve : Address → ℤ → W → Result Tx × W
  unfolding Transactor.approve
  approve spender amount =
      Transactor.approve bind s.contract.transactor s.transact_opts spender amount

  unfoldable pub decrease_allowance : Address → ℤ → W → Result Tx × W
  unfolding Transactor.decrease_allowance
  decrease_allowance spender subtracted_value =
      Transactor.decrease_allowance bind s.contract.transactor s.transact_opts spender
        subtracted_value

  unfoldable pub increase_allowance : Address → ℤ → W → Result Tx × W
  unfolding Transactor.increase_allowance
  increase_allowance spender added_value =
      Transactor.increase_allowance bind s.contract.transactor s.transact_opts spender added_value

  unfoldable pub transfer : Address → ℤ → W → Result Tx × W
  unfolding Transactor.transfer
  transfer recipient amount =
      Transactor.transfer bind s.contract.transactor s.transact_opts recipient amount

  unfoldable pub transfer_from : Address → Address → ℤ → W → Result Tx × W
  unfolding Transactor.transfer_from
  transfer_from sender recipient amount =
      Transactor.transfer_from bind s.contract.transactor s.transact_opts sender recipient amount
