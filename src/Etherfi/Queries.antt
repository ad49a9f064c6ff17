-- ===== src/Etherfi/Queries.antt =====
-- The queries of internal/etherfi/evm.go and internal/etherfi/etherfi.go, over any nodes and any RPC
-- handler. A call that the source retries is the attempt under `try_times` or `retry_query`.
pub mod Answers
pub mod Accounts
pub mod Providers
pub mod Bound
use d8x_etherfi.Base.{
  ℕ, Result, List, [], map, if◌then◌else◌, String, Text, length, Option, none, some,
}
use d8x_etherfi.Base.Int.{ℤ, pos, int64, eqb_ℤ}
use d8x_etherfi.Chain.{Address, Geth, Pool, Node, Call, ToDecN}
use d8x_etherfi.Rounds.Chunks.{slice, chunked}
use d8x_etherfi.Rounds.Trials.{try_times}
use d8x_etherfi.Etherfi.App.{App}
use d8x_etherfi.Etherfi.Call.{M, ◌>>=◌, pure, lift}
use d8x_etherfi.Etherfi.Retry.{retry_query}

-- internal/etherfi/abi.go, by name
abbrev pub erc20_balance_abi : String
erc20_balance_abi = "ERC20_BALANCE_ABI"

abbrev pub avail_cash_abi : String
avail_cash_abi = "AVAIL_CASH_ABI"

-- All that the queries take from outside.
pub record Env (W Client Contract Caller Erc20 Manager : Type 0) : Type 0 where
  pub geth : Geth
  pub pool : Pool W Client
  pub node : Node W Client Contract Caller Erc20 Manager
  pub to_dec_n : ToDecN

-- `big.NewInt(int64(blockNumber))`
abbrev pub block_arg : ℕ → ℤ
block_arg n = int64 (pos n)

module _ {W Client Contract Caller Erc20 Manager : Type 0}
    (env : Env W Client Contract Caller Erc20 Manager) where
  open env use {geth, pool, node, to_dec_n}

  unfoldable pub create_erc20_instance : Text → Client → Result Erc20
  create_erc20_instance token_addr rpc = node.new_erc20 (geth.hex_to_address token_addr) rpc

  -- The options with the block number are built and not passed on.
  unfoldable pub query_token_balance : Erc20 → Text → Option ℤ → M W ℤ
  query_token_balance tkn_ctrct tkn_owner_addr block_number =
      let owner_addr = geth.hex_to_address tkn_owner_addr in
      node.erc20_balance_of tkn_ctrct none owner_addr

  unfoldable pub query_token_total_supply : Erc20 → Option ℤ → M W ℤ
  query_token_total_supply tkn_ctrct block_number = node.erc20_total_supply tkn_ctrct block_number

  unfoldable pub query_token_decimals : Text → Client → M W ℕ
  unfolding create_erc20_instance
  query_token_decimals token_addr rpc = do
    tkn ← lift (create_erc20_instance token_addr rpc)
    node.erc20_decimals tkn none

  unfoldable pub query_multi_token_balance : Client → Text → List Text → Option ℤ → M W (List ℤ)
  query_multi_token_balance client tkn_addr addrs block_number = do
    contract ← lift (node.new_contract erc20_balance_abi tkn_addr)
    caller ← lift (node.new_caller client)
    chunked 500 (length addrs) λ from to.
        node.call caller block_number
          (map (λ a. Call.balance_of contract (geth.hex_to_address a)) (slice from to addrs))

  module _ {F : Type 0} (app : App F) where
    unfoldable pub query_pool_tkn_total_balance : ℕ → Client → M W ℤ
    unfolding create_erc20_instance query_token_balance
    query_pool_tkn_total_balance block_number rpc = do
      pool_tkn ← lift (create_erc20_instance (geth.hex app.pool_tkn_addr) rpc)
      query_token_balance pool_tkn (geth.hex app.perp_proxy) (some (block_arg block_number))

    unfoldable pub query_share_tkn_supply : ℕ → Client → M W ℤ
    unfolding create_erc20_instance query_token_total_supply
    query_share_tkn_supply block_number rpc = do
      share_tkn ← lift (create_erc20_instance (geth.hex app.pool_share_tkn_addr) rpc)
      query_token_total_supply share_tkn (some (block_arg block_number))

    -- One round of the loop of `QueryLpBalances`.
    abbrev pub try_lp_balances : List Text → ℕ → M W (List ℤ)
    try_lp_balances addrs block_number w =
        let (rpc, w') = pool.get_next_rpc w in
        query_multi_token_balance rpc (geth.hex app.pool_share_tkn_addr) addrs
          (some (block_arg block_number)) (pool.wait_for_token rpc w')

    -- The rest of `QueryLpBalances` once the total supply is known: no balance at all if that is 0.
    unfoldable pub after_supply : List Text → ℕ → ℤ → M W (List ℤ × ℤ)
    after_supply addrs block_number total =
        let rest =
          try_times 2 (try_lp_balances addrs block_number) >>= λ balcs. pure (balcs, total) in
        if eqb_ℤ total (pos 0) then pure ([], total) else rest

    -- The share-token balances of the addresses, and the total supply.
    unfoldable pub query_lp_balances : List Text → ℕ → M W (List ℤ × ℤ)
    unfolding after_supply
    query_lp_balances addrs block_number =
        retry_query pool query_share_tkn_supply block_number >>= after_supply addrs block_number

    -- The accounts from 0 up to the count that the manager reports, 100 at a time. The count is taken
    -- to be below 2 ^ 63, where `int(nb.Int64())` is the count itself.
    unfoldable pub try_query_active_addr : Client → ℤ → Manager → Option ℤ → M W (List Address)
    try_query_active_addr client perp_id ctrct opts = do
      nb ← node.count_active_perp_accounts ctrct opts perp_id
      chunked 100 nb λ from to w.
          node.get_active_perp_accounts_by_chunks ctrct opts perp_id from to
            (pool.wait_for_token client w)

    abbrev pub try_active_addr : Option ℤ → ℤ → M W (List Address)
    try_active_addr opts perp_id w =
        let (client, w') = pool.get_next_rpc w in
        try_query_active_addr client perp_id (node.new_manager client app.sdk_proxy_addr) opts
          (pool.wait_for_token client w')

    unfoldable pub query_active_addr : Option ℤ → ℤ → M W (List Address)
    query_active_addr opts perp_id = try_times 2 (try_active_addr opts perp_id)

    -- One chunk: wait for the node, call it, and convert every output to the token's decimals.
    abbrev pub cash_chunk :
        Client → Caller → Contract → Option ℤ → ℤ → List Address → ℕ → ℕ → M W (List ℤ)
    cash_chunk client caller contract opts id addrs from to w =
        (node.call caller opts (map (Call.get_available_cash contract id) (slice from to addrs))
            >>= λ res. pure (map (λ c. to_dec_n c app.pool_tkn_decimals) res))
          (pool.wait_for_token client w)

    unfoldable pub try_query_avail_cash : Option ℤ → ℤ → List Address → M W (List ℤ)
    try_query_avail_cash opts id addrs = do
      contract ← lift (node.new_contract avail_cash_abi (geth.hex app.perp_proxy))
      λ w.
          let (client, w') = pool.get_next_rpc w in
          (lift (node.new_caller client) >>= λ caller.
          chunked 500 (length addrs) (cash_chunk client caller contract opts id addrs))
            (pool.wait_for_token client w')

    unfoldable pub query_avail_cash : Option ℤ → ℤ → List Address → M W (List ℤ)
    query_avail_cash opts perp_id addrs = try_times 2 (try_query_avail_cash opts perp_id addrs)

    -- The balance of the pool, with the retries of `attributeLpBalances`.
    abbrev pub pool_balance : ℕ → M W ℤ
    pool_balance block_number = retry_query pool query_pool_tkn_total_balance block_number
