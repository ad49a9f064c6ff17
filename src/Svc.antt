-- ===== src/Svc.antt =====
-- `Run` of internal/svc/svc.go: what happens from the environment to the server.
pub mod Order
use d8x_etherfi.Base.{
  ℕ, ◌-◌, ◌+◌, ◌%◌, ◌^◌, List, [], ◌∷◌, Option, none, some, Text, Result, ok, err, Error, Bool,
  if◌then◌else◌, get_elem?, String,
}
use Prim.Native.String.{◌++◌ as str_append}
use text.Mathlib.Text.{◌==◌ as str_eq}
use d8x_etherfi.Chain.{Address}
use d8x_etherfi.Utils.RpcHandler.{Client}
use d8x_etherfi.Etherfi.Call.{M}
use d8x_etherfi.Etherfi.Queries.{Env}
use d8x_etherfi.Etherfi.Store.{connect_db}
use d8x_etherfi.Etherfi.NewApp.{Running, Outside, PoolInfo, new_app}

-- The names of internal/env/env.go.
abbrev pub config_path : String
config_path = "CONFIG_PATH"

abbrev pub database_dsn : String
database_dsn = "DATABASE_DSN"

abbrev pub api_port : String
api_port = "API_PORT"

abbrev pub api_bind_addr : String
api_bind_addr = "API_BIND_ADDR"

-- viper, after it has read `.env` and the environment.
pub record Settings : Type 0 where
  pub is_set : String → Bool
  pub get_string : String → Text

abbrev pub required_envs : List String
required_envs = config_path ∷ database_dsn ∷ api_bind_addr ∷ api_port ∷ []

-- The loop over the required names.
unfoldable pub check_envs : Settings → List String → Option Error
check_envs v [] = none
check_envs v (e ∷ es) =
    let rest = check_envs v es in
    if v.is_set e then rest else some (str_append "required environment variable not set " e)

unfoldable pub load_env : Settings → Result Settings
unfolding check_envs
load_env v = elim (check_envs v required_envs) [ some e ↦ err e | none ↦ ok v ]

-- golang-migrate: the embedded files as a source, a migration over it, and its `Up` and `Close`; and
-- `sql.Open`.
pub record Database (W Source Migration Handle : Type 0) : Type 0 where
  pub source : Result Source
  pub new_with_source : Source → Text → M W Migration
  pub up : Migration → W → Option Error × W
  pub close : Migration → W → (Option Error × Option Error) × W
  pub open_db : Text → Result Handle

module _ {W Source Migration Handle : Type 0} (database : Database W Source Migration Handle) where
  abbrev pub closed : (Option Error × Option Error) × W → Option Error × W
  closed ((some e, e₂), w) = (some e, w)
  closed ((none, some e), w) = (some e, w)
  closed ((none, none), w) = (none, w)

  -- Nothing to migrate is no error.
  abbrev pub after_up : Migration → Option Error × W → Option Error × W
  after_up m (none, w) = closed (database.close m w)
  after_up m (some e, w) = if str_eq e "no change" then closed (database.close m w) else (some e, w)

  abbrev pub with_migration : Result Migration × W → Option Error × W
  with_migration (err e, w) = (some e, w)
  with_migration (ok m, w) = after_up m (database.up m w)

  unfoldable pub run_migrations : Text → W → Option Error × W
  run_migrations postgres_dsn w = elim database.source [
    | err e ↦ (some e, w)
    | ok source ↦ with_migration (database.new_with_source source postgres_dsn w)
  ]

-- How `Run` goes on: it returns, exits with status 1, panics, or serves with the event sync running.
pub data Outcome (F Handle : Type 0) : Type 0 where
  stopped : Error → Outcome F Handle
  exited : Error → Outcome F Handle
  panicked : Outcome F Handle
  serving : Running F → Handle → Outcome F Handle

-- The line that prints the pool's token: the pool is looked up at the place `PoolId-1`.
abbrev pub pool_at : {F : Type 0} → Running F → Option PoolInfo
pool_at s = get_elem? s.sdk.pools ((s.app.pool_id + 2 ^ 16 - 1) % 2 ^ 16)

module _ {W Contract Caller Erc20 Manager Bytes F Source Migration Handle : Type 0}
    (env : Env W Client Contract Caller Erc20 Manager) (out : Outside Bytes F)
    (database : Database W Source Migration Handle) where
  abbrev pub after_migrations : Running F → Handle → Option Error × W → Outcome F Handle × W
  after_migrations s handle (some e, w) = (exited e, w)
  after_migrations s handle (none, w) = (serving s handle, w)

  -- What follows `ConnectDB`: the migrations.
  abbrev pub with_db : Running F → Text → Result Handle → W → Outcome F Handle × W
  with_db s dsn (err e) w = (stopped e, w)
  with_db s dsn (ok handle) w = after_migrations s handle (run_migrations database dsn w)

  abbrev pub with_pool : Running F → Text → Option PoolInfo → W → Outcome F Handle × W
  with_pool s dsn none w = (panicked, w)
  with_pool s dsn (some pool) w = with_db s dsn (connect_db database.open_db dsn) w

  abbrev pub with_app : Text → Result (Option (Running F)) × W → Outcome F Handle × W
  with_app dsn (err e, w) = (stopped e, w)
  with_app dsn (ok none, w) = (panicked, w)
  with_app dsn (ok (some s), w) = with_pool s dsn (pool_at s) w

  abbrev pub with_settings : Result Settings → W → Outcome F Handle × W
  with_settings (err e) w = (stopped e, w)
  with_settings (ok v) w =
      with_app (v.get_string database_dsn) (new_app env out (v.get_string config_path) w)

  unfoldable pub run : Settings → W → Outcome F Handle × W
  unfolding load_env new_app run_migrations connect_db
  run v w = with_settings (load_env v) w
