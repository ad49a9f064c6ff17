-- ===== src/Filterer/Create.antt =====
-- The struct of internal/filterer/filterer.go and `NewFilterer`, over the handler's `Init`.
use d8x_etherfi.Base.{ℕ, List, [], Option, none, some, Text, Result, ok, err, Error}
use d8x_etherfi.Base.Int.{pos}
use d8x_etherfi.Chain.{Address}
use d8x_etherfi.Utils.RpcHandler.{RpcHandler, Client, init}

-- A handler before `Init`: Go's zero value.
abbrev pub zero_handler : {F : Type 0} → RpcHandler F
zero_handler = record { rpc_clients = []; last_idx = 0; buckets = [] }

pub record Filterer (F : Type 0) : Type 0 where
  pub rpc_mngr : RpcHandler F
  pub perp_proxy : Address
  pub pool_share_tkn_addr : Address

module _ {F : Type 0} (dial : Text → Result Client) (clock : ℕ → ℕ) (five : F) where
  abbrev pub made_filterer : Address → Address → RpcHandler F × Option Error → Result (Filterer F)
  made_filterer perp_proxy share_tkn (h, some e) = err e
  made_filterer perp_proxy share_tkn (h, none) =
      ok (record { rpc_mngr = h; perp_proxy = perp_proxy; pool_share_tkn_addr = share_tkn })

  unfoldable pub new_filterer : List Text → Address → Address → Result (Filterer F)
  unfolding init
  new_filterer rpc_urls perp_proxy share_tkn =
      made_filterer perp_proxy share_tkn (init dial clock rpc_urls (pos 5) five zero_handler)
