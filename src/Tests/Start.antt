-- ===== src/Tests/Start.antt =====
-- Starts of the service in the small world.
use d8x_etherfi.Base.{ℕ, ◌+◌, ◌≡◌, refl, List, [], ◌∷◌, none, some, Text, ok, Bool, true, false}
use d8x_etherfi.Base.Int.{ℤ, pos}
use d8x_etherfi.Utils.Config.{ConfigFile, Files, load_config}
use d8x_etherfi.Utils.RpcHandler.{init, dial_all, make_buckets, get_rpc}
use d8x_etherfi.Filterer.Create.{new_filterer}
use d8x_etherfi.Etherfi.Queries.{query_token_decimals, create_erc20_instance}
use d8x_etherfi.Etherfi.NewApp.{PoolInfo, Sdk, Outside, perp_ids_of, tokens_of, assemble, new_app}
use d8x_etherfi.Etherfi.NewApp.Ready.{NewAnswer, new_app-NewAnswer}
use d8x_etherfi.Svc.{
  Settings, Database, Outcome, stopped, exited, panicked, serving, check_envs, load_env,
  run_migrations, run,
}
use d8x_etherfi.Svc.Order.{Ran, run-Ran}
use d8x_etherfi.Tests.World.{env, text_a}

abbrev config_file : ConfigFile
config_file = record {
  chain_id = pos 42;
  pool_id = pos 2;
  genesis = 5;
  rpc_urls = text_a ∷ [];
  rpc_urls_fltr = text_a ∷ [];
}

abbrev files : Files Text
files = record {
  read_file = λ p. ok p;
  unmarshal = λ b. ok config_file;
  default_proxy = λ id. ok b'p';
}

abbrev pool_info : ℤ → PoolInfo
pool_info id = record {
  pool_id = id;
  pool_margin_token_addr = b't';
  share_token_addr = b's';
  pool_margin_symbol = [];
}

-- The pools in the order given.
abbrev sdk : List PoolInfo → Sdk
sdk pools = record {
  perpetuals =
      record { id = pos 100_001; pool_id = pos 1 }
      ∷ record { id = pos 200_001; pool_id = pos 2 }
      ∷ [];
  pools = pools;
  proxy_addr = b'p';
  chain_id = pos 42;
}

abbrev outside : List PoolInfo → Outside Text ℤ
outside pools = record {
  files = files;
  sdk_for = λ id. ok (sdk pools);
  dial_fltr = λ url. ok 7;
  clock_fltr = λ k. k;
  dial = λ url. ok 8;
  clock = λ k. k;
  five = pos 5;
  zero = pos 0;
}

abbrev both_pools : List PoolInfo
both_pools = pool_info (pos 1) ∷ pool_info (pos 2) ∷ []

abbrev settings : Settings
settings = record { is_set = λ e. true; get_string = λ e. text_a }

abbrev database : Database ℕ ℕ ℕ ℕ
database = record {
  source = ok 0;
  new_with_source = λ s dsn w. (ok 1, w);
  up = λ m w. (some "no change", w + 1);
  close = λ m w. ((none, none), w);
  open_db = λ dsn. ok 3;
}

abbrev is_serving : {F H : Type 0} → Outcome F H → Bool
is_serving (stopped e) = false
is_serving (exited e) = false
is_serving panicked = false
is_serving (serving s h) = true

abbrev is_panic : {F H : Type 0} → Outcome F H → Bool
is_panic (stopped e) = false
is_panic (exited e) = false
is_panic panicked = true
is_panic (serving s h) = false

starts : is_serving (run env (outside both_pools) database settings 5).0 ≡ true
unfolding run load_env check_envs new_app load_config assemble new_filterer init dial_all
    make_buckets get_rpc perp_ids_of tokens_of query_token_decimals create_erc20_instance
    run_migrations
starts = refl

-- The only pool of the list has the id 2.
panics : is_panic (run env (outside (pool_info (pos 2) ∷ [])) database settings 5).0 ≡ true
unfolding run load_env check_envs new_app load_config assemble new_filterer init dial_all
    make_buckets get_rpc perp_ids_of tokens_of query_token_decimals create_erc20_instance
    run_migrations
panics = refl

run-Ran_example :
    Ran env
      (outside both_pools)
      database
      settings
      (run env (outside both_pools) database settings 5).0
run-Ran_example = run-Ran env (outside both_pools) database settings 5

new_app-NewAnswer_example :
    NewAnswer env (outside both_pools) text_a (new_app env (outside both_pools) text_a 5).0
new_app-NewAnswer_example = new_app-NewAnswer env (outside both_pools) text_a 5
