-- ===== src/Etherfi/Queries/Providers.antt =====
-- The share tokens and the pool's balance, over nodes that agree on the state at a block.
use d8x_etherfi.Base.{
  ℕ, ◌≡◌, refl, sym, ◌∙◌, ◌⊎◌, inl, inr, Result, ok, err, Error, Result-cases, Bool-cases, List, [],
  ◌∷◌, map, Text, Option, some, none,
}
use mathlib.Core.Path.{subst, ap₂}
use mathlib.Core.Bool.{false≢true}
use d8x_etherfi.Base.Int.{ℤ, pos, eqb_ℤ, eqb_ℤ_iff}
use d8x_etherfi.Chain.{Address, Call}
use d8x_etherfi.Rounds.Trials.{try_times, try_times-all}
use d8x_etherfi.Etherfi.App.{App}
use d8x_etherfi.Etherfi.Call.{pure, lift, >>=-all}
use d8x_etherfi.Etherfi.Retry.{retry_query, retry_query-all, no_contract_code}
use d8x_etherfi.Etherfi.Queries.{
  Env, block_arg, erc20_balance_abi, create_erc20_instance, query_token_balance,
  query_token_total_supply, query_pool_tkn_total_balance, query_share_tkn_supply,
  query_multi_token_balance, try_lp_balances, after_supply, query_lp_balances, pool_balance,
}
use d8x_etherfi.Etherfi.Queries.Accounts.{NodeFails}
use d8x_etherfi.Etherfi.Queries.Answers.{Answered, query_multi_token_balance-Answered}

module _ {W Client Contract Caller Erc20 Manager F : Type 0}
    (env : Env W Client Contract Caller Erc20 Manager) (app : App F) where
  -- A node has answered, at some time, that the pool holds this much at its latest block.
  abbrev pub LatestBalance : ℤ → Type 0
  LatestBalance b =
      (client : Client) × (tkn : Erc20) × (w : W) × (env.node.new_erc20
          (env.geth.hex_to_address (env.geth.hex app.pool_tkn_addr)) client
        ≡ ok tkn)
      × ((env.node.erc20_balance_of tkn none (env.geth.hex_to_address (env.geth.hex app.perp_proxy))
            w).0
          ≡ ok b)

module _ {W Client Contract Caller Erc20 Manager F : Type 0}
    (env : Env W Client Contract Caller Erc20 Manager) (app : App F) (block_number : ℕ) where
  -- The share tokens at the block, and that every node that answers answers from them.
  pub record Reserves : Type 0 where
    pub supply : ℤ
    pub held : Address → ℤ
    pub contract : Contract
    pub parsed :
        env.node.new_contract erc20_balance_abi (env.geth.hex app.pool_share_tkn_addr) ≡ ok contract
    pub called : Call Contract → ℤ
    pub calls_held : (a : Address) → called (Call.balance_of contract a) ≡ held a
    pub supplied :
        (client : Client) (tkn : Erc20) (w : W) (t : ℤ)
        → env.node.new_erc20 (env.geth.hex_to_address (env.geth.hex app.pool_share_tkn_addr)) client
          ≡ ok tkn
        → (env.node.erc20_total_supply tkn (some (block_arg block_number)) w).0 ≡ ok t
        → t ≡ supply
    pub agreed :
        (caller : Caller) (calls : List (Call Contract)) (w : W) (xs : List ℤ)
        → (env.node.call caller (some (block_arg block_number)) calls w).0 ≡ ok xs
        → xs ≡ map called calls

  -- The errors of a token's queries.
  pub data TokenFails (e : Error) : Type 0 where
    bind_fails :
        (a : Address) (client : Client) → env.node.new_erc20 a client ≡ err e → TokenFails e
    supply_fails :
        (tkn : Erc20) (b : Option ℤ) (w : W)
        → (env.node.erc20_total_supply tkn b w).0 ≡ err e
        → TokenFails e
    balance_fails :
        (tkn : Erc20) (b : Option ℤ) (a : Address) (w : W)
        → (env.node.erc20_balance_of tkn b a w).0 ≡ err e
        → TokenFails e

  -- What was read of the pool: a balance at the latest block, or 0 for a token that is not there, or
  -- the error of a node.
  abbrev pub PoolRead : Result ℤ → Type 0
  PoolRead (ok t) = LatestBalance env app t ⊎ ((t ≡ pos 0) × TokenFails no_contract_code)
  PoolRead (err e) = TokenFails e

  query_pool_tkn_total_balance-PoolRead :
      (client : Client) (w : W)
      → PoolRead (query_pool_tkn_total_balance env app block_number client w).0
  unfolding query_pool_tkn_total_balance create_erc20_instance query_token_balance
  query_pool_tkn_total_balance-PoolRead client w =
      let addr = env.geth.hex_to_address (env.geth.hex app.pool_tkn_addr) in
      let owner = env.geth.hex_to_address (env.geth.hex app.perp_proxy) in
      >>=-all (lift (env.node.new_erc20 addr client))
        (λ tkn. env.node.erc20_balance_of tkn none owner) w PoolRead
        (λ tkn q. elim (Result-cases (env.node.erc20_balance_of tkn none owner w).0) [
          | inl (t, p) ↦ subst PoolRead (sym p) (inl (client, tkn, w, q, p))
          | inr (e, p) ↦ subst PoolRead (sym p) (balance_fails tkn none owner w p)
        ])
        (λ e q. bind_fails addr client q)

  -- Whatever block was asked for, what comes back is a balance at the latest block, or 0 for a token
  -- that is not there, or the error of a node.
  pub pool_balance-PoolRead : (w : W) → PoolRead (pool_balance env app block_number w).0
  pool_balance-PoolRead w =
      retry_query-all env.pool (query_pool_tkn_total_balance env app) block_number w PoolRead
        (λ v.
          let (rpc, v') = env.pool.get_next_rpc v in
          query_pool_tkn_total_balance-PoolRead rpc (env.pool.wait_for_token rpc v'))
        (λ missing. inr (refl, missing))

  -- The error of a multicall, or of the connection for one.
  abbrev pub MultiFails : Error → Type 0
  MultiFails e =
      ((client : Client) × (env.node.new_caller client ≡ err e))
      ⊎ ((caller : Caller) × (calls : List (Call Contract)) × (w : W) × ((env.node.call caller
              (some (block_arg block_number)) calls w).0
            ≡ err e))

  -- The error is one that a node answered with, or a connection.
  abbrev pub NodeError : Error → Type 0
  NodeError e = NodeFails env app (some (block_arg block_number)) e ⊎ (TokenFails e ⊎ MultiFails e)

  map_same :
      {A : Type 0} {f g : A → ℤ} (h : (a : A) → f a ≡ g a) (xs : List A) → map f xs ≡ map g xs
  map_same h [] = refl
  map_same h (x ∷ xs) = ap₂ ◌∷◌ (h x) (map_same h xs)

  module _ (reserves : Reserves) where
    -- A number that was wanted, or 0 for a contract that is not there, or the error of a node.
    abbrev pub Counted : ℤ → Result ℤ → Type 0
    Counted wanted (ok t) = (t ≡ wanted) ⊎ ((t ≡ pos 0) × TokenFails no_contract_code)
    Counted wanted (err e) = TokenFails e

    query_share_tkn_supply-Counted :
        (client : Client) (w : W)
        → Counted reserves.supply (query_share_tkn_supply env app block_number client w).0
    unfolding query_share_tkn_supply create_erc20_instance query_token_total_supply
    query_share_tkn_supply-Counted client w =
        let addr = env.geth.hex_to_address (env.geth.hex app.pool_share_tkn_addr) in
        >>=-all (lift (env.node.new_erc20 addr client))
          (λ tkn. env.node.erc20_total_supply tkn (some (block_arg block_number))) w
          (Counted reserves.supply)
          (λ tkn q.
            elim (Result-cases
              (env.node.erc20_total_supply tkn (some (block_arg block_number)) w).0) [
                | inl (t, p) ↦
                    subst (Counted reserves.supply) (sym p)
                      (inl (reserves.supplied client tkn w t q p))
                | inr (e, p) ↦
                    subst (Counted reserves.supply) (sym p)
                      (supply_fails tkn (some (block_arg block_number)) w p)
              ])
          (λ e q. bind_fails addr client q)

    supply-Counted :
        (w : W)
        → Counted reserves.supply
            (retry_query env.pool (query_share_tkn_supply env app) block_number w).0
    supply-Counted w =
        retry_query-all env.pool (query_share_tkn_supply env app) block_number w
          (Counted reserves.supply)
          (λ v.
            let (rpc, v') = env.pool.get_next_rpc v in
            query_share_tkn_supply-Counted rpc (env.pool.wait_for_token rpc v'))
          (λ missing. inr (refl, missing))

    -- What comes back of the share tokens: for each address what it holds, and the supply; no balance
    -- at all if the supply is 0; or the error of a node.
    abbrev pub ProvidersAnswer : List Text → Result (List ℤ × ℤ) → Type 0
    ProvidersAnswer addrs (ok (balcs, t)) =
        ((t ≡ reserves.supply)
          × (balcs ≡ map (λ a. reserves.held (env.geth.hex_to_address a)) addrs))
        ⊎ ((t ≡ pos 0) × (balcs ≡ []) × ((t ≡ reserves.supply) ⊎ TokenFails no_contract_code))
    ProvidersAnswer addrs (err e) = TokenFails e ⊎ MultiFails e

    BalancesAnswer : List Text → Result (List ℤ) → Type 0
    BalancesAnswer addrs (ok xs) = xs ≡ map (λ a. reserves.held (env.geth.hex_to_address a)) addrs
    BalancesAnswer addrs (err e) = MultiFails e

    Answered-BalancesAnswer :
        (client : Client) (addrs : List Text) (r : Result (List ℤ))
        → Answered env
            (some (block_arg block_number))
            reserves.called
            reserves.agreed
            client
            (map
              (λ a. reserves.called (Call.balance_of reserves.contract (env.geth.hex_to_address a)))
              addrs)
            r
        → BalancesAnswer addrs r
    unfolding BalancesAnswer
    Answered-BalancesAnswer client addrs (ok xs) h =
        h ∙ map_same (λ a. reserves.calls_held (env.geth.hex_to_address a)) addrs
    Answered-BalancesAnswer client addrs (err e) (inl q) = inl (client, q)
    Answered-BalancesAnswer client addrs (err e) (inr q) = inr q

    balances-BalancesAnswer :
        (addrs : List Text) (w : W)
        → BalancesAnswer addrs (try_times 2 (try_lp_balances env app addrs block_number) w).0
    balances-BalancesAnswer addrs w =
        try_times-all 2 (try_lp_balances env app addrs block_number) w (BalancesAnswer addrs) (λ v.
          let (rpc, v') = env.pool.get_next_rpc v in
          Answered-BalancesAnswer rpc addrs
            (query_multi_token_balance env rpc (env.geth.hex app.pool_share_tkn_addr) addrs
              (some (block_arg block_number)) (env.pool.wait_for_token rpc v')).0
            (query_multi_token_balance-Answered env (some (block_arg block_number)) reserves.called
              reserves.agreed reserves.contract rpc (env.geth.hex app.pool_share_tkn_addr) addrs
              (env.pool.wait_for_token rpc v') reserves.parsed))

    after_supply-ProvidersAnswer :
        (addrs : List Text) (t : ℤ) (w : W)
        → Counted reserves.supply (ok t)
        → ProvidersAnswer addrs (after_supply env app addrs block_number t w).0
    unfolding after_supply BalancesAnswer
    after_supply-ProvidersAnswer addrs t w counted = elim (Bool-cases (eqb_ℤ t (pos 0))) [
      | inl z ↦
          rw (after_supply, z)
            (inr (
              (eqb_ℤ_iff t (pos 0)).0 z,
              refl,
              elim counted [ inl e ↦ inl e | inr (e, f) ↦ inr f ],
            ))
      | inr nz ↦
          let asked = try_times 2 (try_lp_balances env app addrs block_number) in
          let answered = balances-BalancesAnswer addrs w in
          let exact : t ≡ reserves.supply = elim counted [
            | inl e ↦ e
            | inr (e, f) ↦ absurd (false≢true (sym nz ∙ (eqb_ℤ_iff t (pos 0)).1 e))
          ] in
          rw (after_supply, nz)
            (>>=-all asked (λ balcs. pure (balcs, t)) w (ProvidersAnswer addrs)
              (λ balcs q. inl (exact, subst (BalancesAnswer addrs) q answered))
              (λ e q. inr (subst (BalancesAnswer addrs) q answered)))
    ]

    -- Over nodes that agree on the state at the block, the query returns for each address what it
    -- holds of the share token, in their order, and the supply; or no balance, if the supply is 0 or
    -- a node says that there is no contract; or the error of a node.
    pub query_lp_balances-ProvidersAnswer :
        (addrs : List Text) (w : W)
        → ProvidersAnswer addrs (query_lp_balances env app addrs block_number w).0
    unfolding query_lp_balances BalancesAnswer
    query_lp_balances-ProvidersAnswer addrs w =
        let asked = retry_query env.pool (query_share_tkn_supply env app) block_number in
        let counted = supply-Counted w in
        >>=-all asked (after_supply env app addrs block_number) w (ProvidersAnswer addrs)
          (λ t q.
            after_supply-ProvidersAnswer addrs t (asked w).1
              (subst (Counted reserves.supply) q counted))
          (λ e q. inl (subst (Counted reserves.supply) q counted))
