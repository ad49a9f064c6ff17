-- ===== src/Contracts/TransactorSession.antt =====
-- `Erc20TransactorSession`: the transactions with the options of the session.
use d8x_etherfi.Base.{Result}
use d8x_etherfi.Base.Int.{ℤ}
use d8x_etherfi.Chain.{Address}
use d8x_etherfi.Contracts.{Bind, Erc20TransactorSession}
use d8x_etherfi.Contracts.Transactor

module _ {W Backend Abi Bound CallOpts TransactOpts Tx Value : Type 0}
    (bind : Bind W Backend Abi Bound CallOpts TransactOpts Tx Value)
    (s : Erc20TransactorSession Bound TransactOpts) where
  unfoldable pub approve : Address → ℤ → W → Result Tx × W
  unfolding Transactor.approve
  approve spender amount = Transactor.approve bind s.contract s.transact_opts spender amount

  unfoldable pub decrease_allowance : Address → ℤ → W → Result Tx × W
  unfolding Transactor.decrease_allowance
  decrease_allowance spender subtracted_value =
      Transactor.decrease_allowance bind s.contract s.transact_opts spender subtracted_value

  unfoldable pub increase_allowance : Address → ℤ → W → Result Tx × W
  unfolding Transactor.increase_allowance
  increase_allowance spender added_value =
      Transactor.increase_allowance bind s.contract s.transact_opts spender added_value

  unfoldable pub transfer : Address → ℤ → W → Result Tx × W
  unfolding Transactor.transfer
  transfer recipient amount = Transactor.transfer bind s.contract s.transact_opts recipient amount

  unfoldable pub transfer_from : Address → Address → ℤ → W → Result Tx × W
  unfolding Transactor.transfer_from
  transfer_from sender recipient amount =
      Transactor.transfer_from bind s.contract s.transact_opts sender recipient amount
