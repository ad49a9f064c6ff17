-- ===== src/Contracts/Raw.antt =====
-- `Erc20Raw`, `Erc20CallerRaw` and `Erc20TransactorRaw`: the bound contract's own operations, for any
-- method by its name. The record of each only holds the binding, which stands for it here.
use d8x_etherfi.Base.{List, String, Result}
use d8x_etherfi.Contracts.{Bind, Erc20, Erc20Caller, Erc20Transactor}

module _ {W Backend Abi Bound CallOpts TransactOpts Tx Value : Type 0}
    (bind : Bind W Backend Abi Bound CallOpts TransactOpts Tx Value) where
  unfoldable pub call : Erc20 Bound → CallOpts → String → List Value → W → Result (List Value) × W
  call c opts method params = bind.call c.caller.contract opts method params

  unfoldable pub transfer : Erc20 Bound → TransactOpts → W → Result Tx × W
  transfer c opts = bind.transfer c.transactor.contract opts

  unfoldable pub transact : Erc20 Bound → TransactOpts → String → List Value → W → Result Tx × W
  transact c opts method params = bind.transact c.transactor.contract opts method params

  unfoldable pub caller_call :
      Erc20Caller Bound → CallOpts → String → List Value → W → Result (List Value) × W
  caller_call c opts method params = bind.call c.contract opts method params

  unfoldable pub transactor_transfer : Erc20Transactor Bound → TransactOpts → W → Result Tx × W
  transactor_transfer c opts = bind.transfer c.contract opts

  unfoldable pub transactor_transact :
      Erc20Transactor Bound → TransactOpts → String → List Value → W → Result Tx × W
  transactor_transact c opts method params = bind.transact c.contract opts method params
