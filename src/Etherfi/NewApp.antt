-- ===== src/Etherfi/NewApp.antt =====
-- `NewApp` of internal/etherfi/etherfi.go: the configuration, what the SDK knows of the pool, the
-- filterer, the nodes, and the decimals of the pool's token.
pub mod Pool
pub mod Ready
use d8x_etherfi.Base.{
  ℕ, ◌≡◌, ◌^◌, List, [], ◌∷◌, Option, none, some, Text, Result, ok, err, Error, Bool, ◌||◌,
  if◌then◌else◌, eqb,
}
use Prim.Native.String.{◌++◌ as str_append}
use d8x_etherfi.Base.Int.{ℤ, pos, eqb_ℤ, mod_ℕ}
use d8x_etherfi.Chain.{Address}
use d8x_etherfi.Utils.Config.{Config, Files, load_config}
use d8x_etherfi.Utils.RpcHandler.{RpcHandler, Client, init, get_rpc}
use d8x_etherfi.Filterer.Create.{Filterer, new_filterer, zero_handler}
use d8x_etherfi.Etherfi.App.{App}
use d8x_etherfi.Etherfi.Call.{M, ◌>>=◌, pure, lift}
use d8x_etherfi.Etherfi.Queries.{Env, query_token_decimals}

-- What the service reads of the SDK's exchange information.
pub record Perpetual : Type 0 where
  pub id : ℤ
  pub pool_id : ℤ

pub record PoolInfo : Type 0 where
  pub pool_id : ℤ
  pub pool_margin_token_addr : Address
  pub share_token_addr : Address
  pub pool_margin_symbol : Text

pub record Sdk : Type 0 where
  pub perpetuals : List Perpetual
  pub pools : List PoolInfo
  pub proxy_addr : Address
  pub chain_id : ℤ

-- The service before it runs: the app, with the handles that `App` of the model leaves out.
pub record Running (F : Type 0) : Type 0 where
  pub app : App F
  pub rpc_mngr : RpcHandler F
  pub filterer : Filterer F
  pub sdk : Sdk

-- The perpetuals of the pool, in their order.
unfoldable pub perp_ids_of : ℤ → List Perpetual → List ℤ
perp_ids_of pool_id [] = []
perp_ids_of pool_id (perp ∷ perps) =
    let rest = perp_ids_of pool_id perps in
    if eqb_ℤ perp.pool_id pool_id then perp.id ∷ rest else rest

-- The margin and the share token of the first pool with the id, or zero addresses.
unfoldable pub tokens_of : ℤ → List PoolInfo → Address × Address
tokens_of pool_id [] = (0, 0)
tokens_of pool_id (pool ∷ pools) =
    let rest = tokens_of pool_id pools in
    if eqb_ℤ pool.pool_id pool_id
    then (pool.pool_margin_token_addr, pool.share_token_addr)
    else rest

-- What is taken from outside: files, the SDK for a chain, and the dialling of either handler with
-- the readings of the clock; `five` and `zero` are constants of `float64`.
pub record Outside (Bytes F : Type 0) : Type 0 where
  pub files : Files Bytes
  pub sdk_for : ℤ → Result Sdk
  pub dial_fltr : Text → Result Client
  pub clock_fltr : ℕ → ℕ
  pub dial : Text → Result Client
  pub clock : ℕ → ℕ
  pub five : F
  pub zero : F

module _ {W Contract Caller Erc20 Manager Bytes F : Type 0}
    (env : Env W Client Contract Caller Erc20 Manager) (out : Outside Bytes F) where
  -- `app` with the values that are known before a node is asked.
  abbrev pub first_app : Config → Sdk → App F
  first_app config sdk = record {
    genesis = config.config_file.genesis;
    perp_proxy = config.perp_addr;
    pool_share_tkn_addr = (tokens_of config.config_file.pool_id sdk.pools).1;
    pool_tkn_addr = (tokens_of config.config_file.pool_id sdk.pools).0;
    pool_id = mod_ℕ config.config_file.pool_id (2 ^ 16);
    perp_ids = perp_ids_of config.config_file.pool_id sdk.perpetuals;
    pool_tkn_decimals = 0;
    chain_id = sdk.chain_id;
    sdk_proxy_addr = sdk.proxy_addr;
    last_delegates = 0;
    last_transfers = 0;
    etherfi_apy = out.zero;
    etherfi_apy_ts = pos 0;
  }

  -- The decimals, once there is a node to ask. `none` is the panic of `GetRpc`.
  abbrev pub with_rpc :
      App F → Sdk → Filterer F → RpcHandler F → Option Client → M W (Option (Running F))
  with_rpc app sdk f h none = pure none
  with_rpc app sdk f h (some rpc) = do
    dec ← query_token_decimals env (env.geth.hex app.pool_tkn_addr) rpc
    pure (
        some (record {
          app = record app { pool_tkn_decimals = dec };
          rpc_mngr = h;
          filterer = f;
          sdk = sdk;
        }))

  abbrev pub with_nodes :
      App F → Sdk → Filterer F → RpcHandler F × Option Error → M W (Option (Running F))
  with_nodes app sdk f (h, some e) = lift (err e)
  with_nodes app sdk f (h, none) = with_rpc app sdk f h (get_rpc h)

  abbrev pub with_filterer : App F → Sdk → Config → Result (Filterer F) → M W (Option (Running F))
  with_filterer app sdk config (err e) = lift (err (str_append "failed to create filterer:" e))
  with_filterer app sdk config (ok f) =
      with_nodes app sdk f
        (init out.dial out.clock config.config_file.rpc_urls (pos 5) out.five zero_handler)

  -- The app for what the configuration and the SDK say.
  unfoldable pub assemble : Config → Sdk → M W (Option (Running F))
  unfolding new_filterer query_token_decimals init get_rpc perp_ids_of tokens_of
  assemble config sdk =
      let app = first_app config sdk in
      let filterer =
        new_filterer out.dial_fltr out.clock_fltr out.five config.config_file.rpc_urls_fltr
          config.perp_addr app.pool_share_tkn_addr in
      if eqb app.pool_share_tkn_addr 0 || eqb app.pool_tkn_addr 0
      then lift (err "invalid token address")
      else with_filterer app sdk config filterer

  -- `NewApp` with the value of `CONFIG_PATH`.
  unfoldable pub new_app : Text → M W (Option (Running F))
  unfolding assemble load_config
  new_app config_path = do
    config ← lift (load_config out.files config_path)
    sdk ← lift (out.sdk_for config.config_file.chain_id)
    assemble config sdk
