-- ===== src/Etherfi/App.antt =====
-- `type App` of internal/etherfi/etherfi.go, less its handles: the database, the RPC handler and the
-- filterer are arguments of the operations that use them, and the mutex is never taken.
use d8x_etherfi.Base.{ℕ, List}
use d8x_etherfi.Base.Int.{ℤ}
use d8x_etherfi.Chain.{Address}

pub record App (F : Type 0) : Type 0 where
  -- starting block when there is no data
  pub genesis : ℕ
  pub perp_proxy : Address
  pub pool_share_tkn_addr : Address
  pub pool_tkn_addr : Address
  pub pool_id : ℕ
  -- relevant perpetual ids
  pub perp_ids : List ℤ
  pub pool_tkn_decimals : ℕ
  -- of `Sdk`: the chain id and the address of the manager
  pub chain_id : ℤ
  pub sdk_proxy_addr : Address
  -- `LastBlockTo`, 0: delegates, 1: transfers
  pub last_delegates : ℕ
  pub last_transfers : ℕ
  -- the cached yield, and when it was last queried (a unix timestamp)
  pub etherfi_apy : F
  pub etherfi_apy_ts : ℤ
