-- ===== src/Etherfi/Queries/Bound.antt =====
-- The queries for one number of an ERC-20 token, down to the call that the binding of
-- internal/contracts/erc20.go makes.
use d8x_etherfi.Base.{
  ℕ, ◌≡◌, sym, ap, ◌∙◌, inl, inr, List, [], ◌∷◌, Option, none, some, String, Result, ok, err,
  Result-cases,
}
use d8x_etherfi.Base.Int.{ℤ}
use d8x_etherfi.Chain.{Address}
use d8x_etherfi.Contracts.{Bind, Erc20, erc20_meta_data, first_output, bind_erc20, new_erc20}
use d8x_etherfi.Contracts.Caller.{read, balance_of, total_supply, decimals}
use d8x_etherfi.Etherfi.App.{App}
use d8x_etherfi.Etherfi.Call.{M, ◌>>=◌, lift}
use d8x_etherfi.Etherfi.Queries.{
  Env, block_arg, create_erc20_instance, query_token_balance, query_token_total_supply,
  query_pool_tkn_total_balance, query_share_tkn_supply, query_token_decimals,
}

module _ {W Client Contract Caller Manager Abi Bound TransactOpts Tx Value : Type 0}
    (bind : Bind W Client Abi Bound (Option ℤ) TransactOpts Tx Value)
    (env : Env W Client Contract Caller (Erc20 Bound) Manager) where
  -- What the queries take for the ERC-20 contract is the binding, which does not panic.
  pub record IsBound : Type 0 where
    pub creates : (a : Address) (rpc : Client) → env.node.new_erc20 a rpc ≡ new_erc20 bind a rpc
    pub balances :
        (e : Erc20 Bound) (opts : Option ℤ) (a : Address) (w : W)
        → balance_of bind e.caller opts a w ≡ (
          some (env.node.erc20_balance_of e opts a w).0,
          (env.node.erc20_balance_of e opts a w).1,
        )
    pub supplies :
        (e : Erc20 Bound) (opts : Option ℤ) (w : W)
        → total_supply bind e.caller opts w ≡ (
          some (env.node.erc20_total_supply e opts w).0,
          (env.node.erc20_total_supply e opts w).1,
        )
    pub has_decimals :
        (e : Erc20 Bound) (opts : Option ℤ) (w : W)
        → decimals bind e.caller opts w
          ≡ (some (env.node.erc20_decimals e opts w).0, (env.node.erc20_decimals e opts w).1)

  -- The contract at an address, over a node.
  abbrev pub bound_at : Address → Client → Abi → Bound
  bound_at a rpc parsed = bind.new_bound_contract a parsed (some rpc) (some rpc) (some rpc)

  -- One call of a method at an address is all that was done, and its first output is the result; or
  -- the ABI could not be had, and nothing was done.
  abbrev pub Asked :
      {A : Type 0}
      → Result Abi
      → (Value → Option A)
      → Address
      → Option ℤ
      → String
      → List Value
      → Client
      → W
      → Result A × W
      → Type 0
  Asked (err e) convert a opts method params rpc w r = r ≡ (err e, w)
  Asked (ok parsed) convert a opts method params rpc w r =
      (some r.0 ≡ first_output convert (bind.call (bound_at a rpc parsed) opts method params w).0)
      × (r.1 ≡ (bind.call (bound_at a rpc parsed) opts method params w).1)

  module _ (is_bound : IsBound) where
    -- A query that makes the binding and then reads one output of a method.
    one_call :
        {A : Type 0} (convert : Value → Option A) (a : Address) (opts : Option ℤ) (method : String)
        (params : List Value) (rpc : Client) (f : Erc20 Bound → M W A) (w : W)
        → ((e : Erc20 Bound)
            → read bind e.caller convert opts method params w ≡ (some (f e w).0, (f e w).1))
        → Asked
            (bind.get_abi erc20_meta_data)
            convert
            a
            opts
            method
            params
            rpc
            w
            ((lift (env.node.new_erc20 a rpc) >>= f) w)
    unfolding new_erc20 bind_erc20
    one_call convert a opts method params rpc f w h =
        elim (Result-cases (bind.get_abi erc20_meta_data)) [
          | inr (e, q) ↦
              let made : env.node.new_erc20 a rpc ≡ err e =
                is_bound.creates a rpc ∙ rw (new_erc20, bind_erc20, q) in
              rw (q, ◌>>=◌, made)
          | inl (parsed, q) ↦
              let c : Erc20 Bound = record {
                caller = record { contract = bound_at a rpc parsed };
                transactor = record { contract = bound_at a rpc parsed };
                filterer = record { contract = bound_at a rpc parsed };
              } in
              let made : env.node.new_erc20 a rpc ≡ ok c =
                is_bound.creates a rpc ∙ rw (new_erc20, bind_erc20, q) in
              rw (q, ◌>>=◌, made) (ap (λ r. r.0) (sym (h c)), ap (λ r. r.1) (sym (h c)))
        ]

    module _ {F : Type 0} (app : App F) where
      -- Over the binding, the service's queries for one number each make one call, if the ABI can be
      -- read: the pool's balance is what `balanceOf` gives for the proxy with no block, whatever the
      -- block asked for; the supply what `totalSupply` gives at that block; and the decimals what
      -- `decimals` gives with no block.
      pub queries-Asked :
          (n : ℕ) (rpc : Client) (w : W)
          → Asked
              (bind.get_abi erc20_meta_data)
              bind.to_int
              (env.geth.hex_to_address (env.geth.hex app.pool_tkn_addr))
              none
              "balanceOf"
              (bind.of_address (env.geth.hex_to_address (env.geth.hex app.perp_proxy)) ∷ [])
              rpc
              w
              (query_pool_tkn_total_balance env app n rpc w)
            × Asked
                (bind.get_abi erc20_meta_data)
                bind.to_int
                (env.geth.hex_to_address (env.geth.hex app.pool_share_tkn_addr))
                (some (block_arg n))
                "totalSupply"
                []
                rpc
                w
                (query_share_tkn_supply env app n rpc w)
            × Asked
                (bind.get_abi erc20_meta_data)
                bind.to_uint8
                (env.geth.hex_to_address (env.geth.hex app.pool_tkn_addr))
                none
                "decimals"
                []
                rpc
                w
                (query_token_decimals env (env.geth.hex app.pool_tkn_addr) rpc w)
      unfolding query_pool_tkn_total_balance query_share_tkn_supply query_token_decimals
          create_erc20_instance query_token_balance query_token_total_supply balance_of total_supply
          decimals
      queries-Asked n rpc w = (
        one_call bind.to_int _ none "balanceOf" _ rpc
            (λ e.
              env.node.erc20_balance_of e none
                (env.geth.hex_to_address (env.geth.hex app.perp_proxy)))
            w (λ e. is_bound.balances e none _ w),
        one_call bind.to_int _ (some (block_arg n)) "totalSupply" [] rpc
            (λ e. env.node.erc20_total_supply e (some (block_arg n))) w
            (λ e. is_bound.supplies e (some (block_arg n)) w),
        one_call bind.to_uint8 _ none "decimals" [] rpc (λ e. env.node.erc20_decimals e none) w
            (λ e. is_bound.has_decimals e none w),
      )
