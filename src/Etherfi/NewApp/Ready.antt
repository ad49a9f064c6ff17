-- ===== src/Etherfi/NewApp/Ready.antt =====
-- What `NewApp` returns: an app for the configured pool whose handlers are ready, or an error.
use d8x_etherfi.Base.{
  ℕ, ◌≡◌, ◌≢◌, ◌↔◌, refl, ap, sym, ◌⊎◌, inl, inr, List, [], length, Option, none, some, Text,
  Result, ok, err, Error, Bool-cases, Result-cases, eqb, arith, get_elem?-lt,
}
use mathlib.Core.Path.{subst}
use Prim.Native.String.{◌++◌ as str_append}
use mathlib.Core.List.{Memᴰ}
use d8x_etherfi.Base.Int.{ℤ, pos}
use d8x_etherfi.Utils.Config.{Config, load_config}
use d8x_etherfi.Utils.RpcHandler.{RpcHandler, Client, init, get_rpc, dial_all}
use d8x_etherfi.Utils.RpcHandler.Rotation.{IsReady, init-IsReady}
use d8x_etherfi.Filterer.Create.{Filterer, new_filterer, made_filterer, zero_handler}
use d8x_etherfi.Etherfi.App.{App}
use d8x_etherfi.Etherfi.Call.{pure, >>=-all}
use d8x_etherfi.Etherfi.Queries.{Env, query_token_decimals}
use d8x_etherfi.Etherfi.NewApp.{
  Sdk, Running, Outside, tokens_of, first_app, with_rpc, with_nodes, with_filterer, assemble,
  new_app,
}
use d8x_etherfi.Etherfi.NewApp.Pool.{IsPerp, IsPool, perp_ids_of-IsPerp, tokens_of-IsPool}

-- The only error of a handler's `Init`.
abbrev NoRpcs : Option Error → Type 0
NoRpcs none = Unit {0}
NoRpcs (some e) = e ≡ "failed to create rpcs"

init-NoRpcs :
    {F : Type 0} (dial : Text → Result Client) (clock : ℕ → ℕ) (urls : List Text) (capacity : ℤ)
    (rate : F) (h : RpcHandler F)
    → NoRpcs (init dial clock urls capacity rate h).1
unfolding init
init-NoRpcs dial clock urls capacity rate h =
    elim (Bool-cases (eqb (length (dial_all dial urls)) 0)) [
      | inl q ↦ rw (init, q) refl
      | inr q ↦ rw (init, q) tt
    ]

module _ {W Contract Caller Erc20 Manager Bytes F : Type 0}
    (env : Env W Client Contract Caller Erc20 Manager) (out : Outside Bytes F) (path : Text) where
  -- The app is that of the pool: its two tokens, its perpetuals, the node's decimals; both handlers
  -- are ready, the filterer watches the app's contracts, and nothing is in the caches.
  pub record IsStarted (config : Config) (sdk : Sdk) (s : Running F) : Type 0 where
    pub of_pool :
        IsPool config.config_file.pool_id sdk.pools (s.app.pool_tkn_addr, s.app.pool_share_tkn_addr)
    pub has_tokens : (s.app.pool_tkn_addr ≢ 0) × (s.app.pool_share_tkn_addr ≢ 0)
    pub perps :
        (id : ℤ) → Memᴰ id s.app.perp_ids ↔ IsPerp config.config_file.pool_id sdk.perpetuals id
    pub decimals :
        (rpc : Client) × (w : W) × ((query_token_decimals env
            (env.geth.hex s.app.pool_tkn_addr)
            rpc
            w).0
          ≡ ok s.app.pool_tkn_decimals)
    pub nodes_ready : IsReady s.rpc_mngr
    pub filterer_ready : IsReady s.filterer.rpc_mngr
    pub watches :
        (s.filterer.perp_proxy ≡ s.app.perp_proxy)
        × (s.filterer.pool_share_tkn_addr ≡ s.app.pool_share_tkn_addr)
    pub fresh :
        (s.app.last_delegates ≡ 0) × (s.app.last_transfers ≡ 0) × (s.app.etherfi_apy_ts ≡ pos 0)

  -- The configuration was read, and the SDK knows its chain.
  abbrev pub IsLoaded : Config → Sdk → Type 0
  IsLoaded config sdk =
      (load_config out.files path ≡ ok config) × (out.sdk_for config.config_file.chain_id ≡ ok sdk)

  -- Why the service may fail to start, and the error that it then fails with: each cause is one of
  -- the configuration that was read and of the SDK for its chain.
  pub data NewFails (e : Error) : Type 0 where
    config_fails : load_config out.files path ≡ err e → NewFails e
    sdk_fails :
        (config : Config)
        → load_config out.files path ≡ ok config
        → out.sdk_for config.config_file.chain_id ≡ err e
        → NewFails e
    no_token :
        (config : Config) (sdk : Sdk)
        → IsLoaded config sdk
        → ((tokens_of config.config_file.pool_id sdk.pools).0 ≡ 0)
          ⊎ ((tokens_of config.config_file.pool_id sdk.pools).1 ≡ 0)
        → e ≡ "invalid token address"
        → NewFails e
    no_fltr_node :
        (config : Config) (sdk : Sdk)
        → IsLoaded config sdk
        → dial_all out.dial_fltr config.config_file.rpc_urls_fltr ≡ []
        → e ≡ str_append "failed to create filterer:" "failed to create rpcs"
        → NewFails e
    no_node :
        (config : Config) (sdk : Sdk)
        → IsLoaded config sdk
        → dial_all out.dial config.config_file.rpc_urls ≡ []
        → e ≡ "failed to create rpcs"
        → NewFails e
    decimals_fail :
        (config : Config) (sdk : Sdk) (rpc : Client) (w : W)
        → IsLoaded config sdk
        → (query_token_decimals env
            (env.geth.hex (tokens_of config.config_file.pool_id sdk.pools).0)
            rpc
            w).0
          ≡ err e
        → NewFails e

  abbrev pub NewAnswer : Result (Option (Running F)) → Type 0
  NewAnswer (ok none) = ⊥
  NewAnswer (ok (some s)) =
      (config : Config) × (sdk : Sdk) × (load_config out.files path ≡ ok config)
      × (out.sdk_for config.config_file.chain_id ≡ ok sdk)
      × IsStarted config sdk s
  NewAnswer (err e) = NewFails e

  module _ (config : Config) (sdk : Sdk) (loaded : load_config out.files path ≡ ok config)
      (known : out.sdk_for config.config_file.chain_id ≡ ok sdk)
      (of_pool : IsPool config.config_file.pool_id sdk.pools
        (tokens_of config.config_file.pool_id sdk.pools))
      (has_tokens : ((tokens_of config.config_file.pool_id sdk.pools).0 ≢ 0)
        × ((tokens_of config.config_file.pool_id sdk.pools).1 ≢ 0)) where
    abbrev app₀ : App F
    app₀ = first_app env out config sdk

    -- The filterer is ready, or no node could be dialled for it.
    FiltererMade : Result (Filterer F) → Type 0
    FiltererMade (ok f) =
        IsReady f.rpc_mngr
        × (f.perp_proxy ≡ app₀.perp_proxy)
        × (f.pool_share_tkn_addr ≡ app₀.pool_share_tkn_addr)
    FiltererMade (err e) =
        (dial_all out.dial_fltr config.config_file.rpc_urls_fltr ≡ [])
        × (e ≡ "failed to create rpcs")

    with_nodes-NewAnswer :
        (f : Filterer F) (r : RpcHandler F × Option Error) (w : W)
        → FiltererMade (ok f)
        → (r.1 ≡ none → IsReady r.0)
          × (r.1 ≢ none → dial_all out.dial config.config_file.rpc_urls ≡ [])
        → NoRpcs r.1
        → NewAnswer (with_nodes env out app₀ sdk f r w).0
    unfolding FiltererMade get_rpc
    with_nodes-NewAnswer f (h, some e) w made (_, nobody) says =
        no_node config sdk (loaded, known) (nobody (λ q. cc)) says
    with_nodes-NewAnswer f (h, none) w (f_ready, proxy, share) (ready, _) says =
        let (rpc, q) = get_elem?-lt h.rpc_clients h.last_idx (ready refl).in_list in
        let started : ℕ → Running F = λ dec. record {
          app = record app₀ { pool_tkn_decimals = dec };
          rpc_mngr = h;
          filterer = f;
          sdk = sdk;
        } in
        subst (λ o. NewAnswer (with_rpc env out app₀ sdk f h o w).0) (sym q)
          (>>=-all (query_token_decimals env (env.geth.hex app₀.pool_tkn_addr) rpc)
            (λ dec. pure (some (started dec))) w NewAnswer
            (λ dec e. (
              config,
              sdk,
              loaded,
              known,
              record {
                of_pool = of_pool;
                has_tokens = has_tokens;
                perps = perp_ids_of-IsPerp config.config_file.pool_id sdk.perpetuals;
                decimals = (rpc, w, e);
                nodes_ready = ready refl;
                filterer_ready = f_ready;
                watches = (proxy, share);
                fresh = (refl, refl, refl);
              },
            ))
            (λ e bad. decimals_fail config sdk rpc w (loaded, known) bad))

    made_filterer-FiltererMade :
        (r : RpcHandler F × Option Error)
        → (r.1 ≡ none → IsReady r.0)
          × (r.1 ≢ none → dial_all out.dial_fltr config.config_file.rpc_urls_fltr ≡ [])
        → NoRpcs r.1
        → FiltererMade (
            made_filterer out.dial_fltr out.clock_fltr out.five config.perp_addr
              app₀.pool_share_tkn_addr r)
    unfolding FiltererMade
    made_filterer-FiltererMade (h, some e) (_, nobody) says = (nobody (λ q. cc), says)
    made_filterer-FiltererMade (h, none) (ready, _) says = (ready refl, refl, refl)

    new_filterer-FiltererMade : FiltererMade (
        new_filterer out.dial_fltr out.clock_fltr out.five config.config_file.rpc_urls_fltr
          config.perp_addr app₀.pool_share_tkn_addr)
    unfolding new_filterer
    new_filterer-FiltererMade =
        made_filterer-FiltererMade
          (init out.dial_fltr out.clock_fltr config.config_file.rpc_urls_fltr (pos 5) out.five
            zero_handler)
          (init-IsReady out.dial_fltr out.clock_fltr config.config_file.rpc_urls_fltr (pos 5)
            out.five zero_handler refl)
          (init-NoRpcs out.dial_fltr out.clock_fltr config.config_file.rpc_urls_fltr (pos 5)
            out.five zero_handler)

    with_filterer-NewAnswer :
        (r : Result (Filterer F)) (w : W)
        → FiltererMade r
        → NewAnswer (with_filterer env out app₀ sdk config r w).0
    unfolding FiltererMade
    with_filterer-NewAnswer (err e) w (nobody, says) =
        no_fltr_node config sdk (loaded, known) nobody
          (ap (str_append "failed to create filterer:") says)
    with_filterer-NewAnswer (ok f) w made =
        with_nodes-NewAnswer f
          (init out.dial out.clock config.config_file.rpc_urls (pos 5) out.five zero_handler) w made
          (init-IsReady out.dial out.clock config.config_file.rpc_urls (pos 5) out.five zero_handler
            refl)
          (init-NoRpcs out.dial out.clock config.config_file.rpc_urls (pos 5) out.five zero_handler)

  assemble-NewAnswer :
      (config : Config) (sdk : Sdk) (w : W)
      → load_config out.files path ≡ ok config
      → out.sdk_for config.config_file.chain_id ≡ ok sdk
      → NewAnswer (assemble env out config sdk w).0
  unfolding assemble
  assemble-NewAnswer config sdk w loaded known =
      let (margin, share) = tokens_of config.config_file.pool_id sdk.pools in
      elim (Bool-cases (eqb share 0)) [
        | inl z ↦ rw (assemble, z) (no_token config sdk (loaded, known) (inr (ground arith)) refl)
        | inr some_share ↦ elim (Bool-cases (eqb margin 0)) [
          | inl z ↦
              rw (assemble, some_share, z)
                (no_token config sdk (loaded, known) (inl (ground arith)) refl)
          | inr some_margin ↦ elim (tokens_of-IsPool config.config_file.pool_id sdk.pools) [
            | inl zeros ↦ absurd (ground (arith, ap (λ t. t.0) zeros))
            | inr of_pool ↦
                rw (assemble, some_share, some_margin)
                  (with_filterer-NewAnswer config sdk loaded known of_pool
                    (ground arith, ground arith) _ w
                    (new_filterer-FiltererMade config sdk loaded known of_pool
                      (ground arith, ground arith)))
          ]
        ]
      ]

  -- `NewApp` does not panic. If it returns an app, then it is one for the pool of the configuration:
  -- its tokens are those of a pool of the SDK with the configured id, and neither is the zero address,
  -- its perpetuals are exactly those of that pool, its decimals are what a node answered; the nodes'
  -- handler and the filterer's are ready, the filterer watches the app's contracts, and the caches are
  -- empty. If it returns an error, then it is that with which the configuration could not be loaded,
  -- or that of the SDK for the chain of the configuration; or it says that a token address is invalid
  -- and the SDK's pool of the configured id has a zero one, or that the nodes could not be had and none
  -- of the configured URLs of that handler could be dialled; or it is a node's error for the decimals.
  pub new_app-NewAnswer : (w : W) → NewAnswer (new_app env out path w).0
  unfolding new_app
  new_app-NewAnswer w = elim (Result-cases (load_config out.files path)) [
    | inr (e, q) ↦ rw (new_app, q) (config_fails q)
    | inl (config, q) ↦ elim (Result-cases (out.sdk_for config.config_file.chain_id)) [
      | inr (e, r) ↦ rw (new_app, q, r) (sdk_fails config q r)
      | inl (sdk, r) ↦ rw (new_app, q, r) (assemble-NewAnswer config sdk w q r)
    ]
  ]
