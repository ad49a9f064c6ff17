-- ===== src/Etherfi/Queries/Accounts.antt =====
-- The active accounts of a perpetual and their cash, over nodes that agree on the state at a block.
use d8x_etherfi.Base.{
  ℕ, ◌≡◌, ap, sym, ◌∙◌, inl, inr, Result, ok, err, Error, Result-cases, List, map, length,
  length-map, Option, arith, ok_injective,
}
use d8x_etherfi.Base.Int.{ℤ}
use d8x_etherfi.Chain.{Address, Call}
use d8x_etherfi.Rounds.Chunks.{slice, chunked, Fetched, chunked_lem}
use d8x_etherfi.Rounds.Trials.{try_times-all}
use d8x_etherfi.Etherfi.App.{App}
use d8x_etherfi.Etherfi.Call.{>>=-all, pure}
use d8x_etherfi.Etherfi.Queries.{
  Env, avail_cash_abi, cash_chunk, try_query_avail_cash, query_avail_cash, try_query_active_addr,
  try_active_addr, query_active_addr,
}
use d8x_etherfi.Etherfi.Queries.Answers.{map-map, map-slice}

module _ {W Client Contract Caller Erc20 Manager F : Type 0}
    (env : Env W Client Contract Caller Erc20 Manager) (app : App F) (block : Option ℤ) where
  -- The state at the block, and that every node that answers answers from it.
  pub record Ledger : Type 0 where
    pub accounts : ℤ → List Address
    pub cash : ℤ → Address → ℤ
    pub contract : Contract
    pub parsed : env.node.new_contract avail_cash_abi (env.geth.hex app.perp_proxy) ≡ ok contract
    pub counted :
        (m : Manager) (id : ℤ) (w : W) (n : ℕ)
        → (env.node.count_active_perp_accounts m block id w).0 ≡ ok n
        → length (accounts id) ≡ n
    pub listed :
        (m : Manager) (id : ℤ) (from to : ℕ) (w : W) (xs : List Address)
        → (env.node.get_active_perp_accounts_by_chunks m block id from to w).0 ≡ ok xs
        → xs ≡ slice from to (accounts id)
    pub called :
        (caller : Caller) (id : ℤ) (addrs : List Address) (w : W) (xs : List ℤ)
        → (env.node.call caller block (map (Call.get_available_cash contract id) addrs) w).0 ≡ ok xs
        → xs ≡ map (cash id) addrs

  -- The errors that a node or a connection may answer with.
  pub data NodeFails (e : Error) : Type 0 where
    count_fails :
        (m : Manager) (id : ℤ) (w : W)
        → (env.node.count_active_perp_accounts m block id w).0 ≡ err e
        → NodeFails e
    list_fails :
        (m : Manager) (id : ℤ) (from to : ℕ) (w : W)
        → (env.node.get_active_perp_accounts_by_chunks m block id from to w).0 ≡ err e
        → NodeFails e
    call_fails :
        (caller : Caller) (calls : List (Call Contract)) (w : W)
        → (env.node.call caller block calls w).0 ≡ err e
        → NodeFails e
    caller_fails : (client : Client) → env.node.new_caller client ≡ err e → NodeFails e

  -- What was wanted, or the error of a node.
  abbrev pub OrFails : {A : Type 0} → A → Result A → Type 0
  OrFails wanted (ok a) = a ≡ wanted
  OrFails wanted (err e) = NodeFails e

  module _ (ledger : Ledger) where
    -- The cash in the decimals of the token.
    abbrev pub cash_of_account : ℤ → Address → ℤ
    cash_of_account id a = env.to_dec_n (ledger.cash id a) app.pool_tkn_decimals

    abbrev list_chunk : Client → ℤ → Manager → ℕ → ℕ → W → Result (List Address) × W
    list_chunk client id m from to w =
        env.node.get_active_perp_accounts_by_chunks m block id from to
          (env.pool.wait_for_token client w)

    Fetched-list :
        (client : Client) (id : ℤ) (m : Manager) (n : ℕ) (r : Result (List Address))
        → Fetched 100 n (list_chunk client id m) (ledger.accounts id) r
        → OrFails (ledger.accounts id) r
    Fetched-list client id m n (ok xs) h = h
    Fetched-list client id m n (err e) (from, to, v, h) =
        list_fails m id from to (env.pool.wait_for_token client v) h

    try_query_active_addr-OrFails :
        (client : Client) (id : ℤ) (m : Manager) (w : W)
        → OrFails (ledger.accounts id) (try_query_active_addr env app client id m block w).0
    unfolding try_query_active_addr
    try_query_active_addr-OrFails client id m w =
        >>=-all (env.node.count_active_perp_accounts m block id)
          (λ n. chunked 100 n (list_chunk client id m)) w (OrFails (ledger.accounts id))
          (λ n q.
            let v = (env.node.count_active_perp_accounts m block id w).1 in
            Fetched-list client id m n (chunked 100 n (list_chunk client id m) v).0 (
              chunked_lem 100 n (list_chunk client id m) (ledger.accounts id)
                (ledger.counted m id w n q) (omega arith)
                (λ from to v xs e.
                  ledger.listed m id from to (env.pool.wait_for_token client v) xs e)
                v))
          (λ e q. count_fails m id w q)

    -- Over nodes that agree on the ledger, the active accounts of a perpetual come back in full, or
    -- the error of a node does.
    pub query_active_addr-OrFails :
        (id : ℤ) (w : W) → OrFails (ledger.accounts id) (query_active_addr env app block id w).0
    unfolding query_active_addr
    query_active_addr-OrFails id w =
        try_times-all 2 (try_active_addr env app block id) w (OrFails (ledger.accounts id)) (λ v.
          let (client, v') = env.pool.get_next_rpc v in
          try_query_active_addr-OrFails client id (env.node.new_manager client app.sdk_proxy_addr)
            (env.pool.wait_for_token client v'))

    module _ (client : Client) (caller : Caller) (id : ℤ) (addrs : List Address) where
      abbrev chunk : ℕ → ℕ → W → Result (List ℤ) × W
      chunk = cash_chunk env app client caller ledger.contract block id addrs

      chunk-slice :
          (from to : ℕ) (w : W) (xs : List ℤ)
          → (chunk from to w).0 ≡ ok xs
          → xs ≡ slice from to (map (cash_of_account id) addrs)
      chunk-slice from to w xs e =
          let v = env.pool.wait_for_token client w in
          let part = slice from to addrs in
          let call =
            env.node.call caller block (map (Call.get_available_cash ledger.contract id) part) in
          >>=-all call (λ res. pure (map (λ c. env.to_dec_n c app.pool_tkn_decimals) res)) v
            (λ r. r ≡ ok xs → xs ≡ slice from to (map (cash_of_account id) addrs))
            (λ ys q h.
              sym (ok_injective h)
              ∙ ap (map (λ c. env.to_dec_n c app.pool_tkn_decimals))
                  (ledger.called caller id part v ys q)
              ∙ map-map (λ c. env.to_dec_n c app.pool_tkn_decimals) (ledger.cash id) part
              ∙ map-slice (cash_of_account id) from to addrs)
            (λ f q h. cc) e

      chunk-NodeFails :
          (from to : ℕ) (w : W) (e : Error) → (chunk from to w).0 ≡ err e → NodeFails e
      chunk-NodeFails from to w e h =
          let v = env.pool.wait_for_token client w in
          let calls = map (Call.get_available_cash ledger.contract id) (slice from to addrs) in
          >>=-all (env.node.call caller block calls)
            (λ res. pure (map (λ c. env.to_dec_n c app.pool_tkn_decimals) res)) v
            (λ r. r ≡ err e → NodeFails e) (λ ys q k. cc)
            (λ f q k. call_fails caller calls v (q ∙ k)) h

      Fetched-cash :
          (r : Result (List ℤ))
          → Fetched 500 (length addrs) chunk (map (cash_of_account id) addrs) r
          → OrFails (map (cash_of_account id) addrs) r
      Fetched-cash (ok xs) h = h
      Fetched-cash (err e) (from, to, v, h) = chunk-NodeFails from to v e h

      chunked-cash :
          (w : W) → OrFails (map (cash_of_account id) addrs) (chunked 500 (length addrs) chunk w).0
      chunked-cash w = Fetched-cash (chunked 500 (length addrs) chunk w).0 (
          chunked_lem 500 (length addrs) chunk (map (cash_of_account id) addrs)
            (length-map (cash_of_account id) addrs) (omega arith) chunk-slice w)

    try_query_avail_cash-OrFails :
        (id : ℤ) (addrs : List Address) (w : W)
        → OrFails (map (cash_of_account id) addrs) (try_query_avail_cash env app block id addrs w).0
    unfolding try_query_avail_cash
    try_query_avail_cash-OrFails id addrs w =
        let (client, w') = env.pool.get_next_rpc w in
        elim (Result-cases (env.node.new_caller client)) [
          | inr (e, q) ↦ rw (try_query_avail_cash, ledger.parsed, q) (caller_fails client q)
          | inl (caller, q) ↦
              rw (try_query_avail_cash, ledger.parsed, q)
                (chunked-cash client caller id addrs (env.pool.wait_for_token client w'))
        ]

    -- Over nodes that agree on the ledger, the cash of the accounts comes back, one amount for each
    -- and in their order, in the decimals of the token; or the error of a node does.
    pub query_avail_cash-OrFails :
        (id : ℤ) (addrs : List Address) (w : W)
        → OrFails (map (cash_of_account id) addrs) (query_avail_cash env app block id addrs w).0
    unfolding query_avail_cash
    query_avail_cash-OrFails id addrs w =
        try_times-all 2 (try_query_avail_cash env app block id addrs) w
          (OrFails (map (cash_of_account id) addrs)) (try_query_avail_cash-OrFails id addrs)
