-- ===== src/Contracts/Transactor.antt =====
-- The transactions of `Erc20Transactor`.
use d8x_etherfi.Base.{[], ◌∷◌, Result}
use d8x_etherfi.Base.Int.{ℤ}
use d8x_etherfi.Chain.{Address}
use d8x_etherfi.Contracts.{Bind, Erc20Transactor}

module _ {W Backend Abi Bound CallOpts TransactOpts Tx Value : Type 0}
    (bind : Bind W Backend Abi Bound CallOpts TransactOpts Tx Value)
    (c : Erc20Transactor Bound) where
  unfoldable pub approve : TransactOpts → Address → ℤ → W → Result Tx × W
  approve opts spender amount =
      bind.transact c.contract opts "approve" (bind.of_address spender ∷ bind.of_int amount ∷ [])

  unfoldable pub decrease_allowance : TransactOpts → Address → ℤ → W → Result Tx × W
  decrease_allowance opts spender subtracted_value =
      bind.transact c.contract opts "decreaseAllowance"
        (bind.of_address spender ∷ bind.of_int subtracted_value ∷ [])

  unfoldable pub increase_allowance : TransactOpts → Address → ℤ → W → Result Tx × W
  increase_allowance opts spender added_value =
      bind.transact c.contract opts "increaseAllowance"
        (bind.of_address spender ∷ bind.of_int added_value ∷ [])

  unfoldable pub transfer : TransactOpts → Address → ℤ → W → Result Tx × W
  transfer opts recipient amount =
      bind.transact c.contract opts "transfer" (bind.of_address recipient ∷ bind.of_int amount ∷ [])

  unfoldable pub transfer_from : TransactOpts → Address → Address → ℤ → W → Result Tx × W
  transfer_from opts sender recipient amount =
      bind.transact c.contract opts "transferFrom"
        (bind.of_address sender ∷ bind.of_address recipient ∷ bind.of_int amount ∷ [])
