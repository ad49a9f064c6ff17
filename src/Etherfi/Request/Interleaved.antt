-- ===== src/Etherfi/Request/Interleaved.antt =====
-- `Balances` of internal/etherfi/etherfi.go with its two goroutines side by side: between any two calls
-- to the nodes or the RPC handler, whatever else runs may change the world.
pub mod Views
pub mod Holders
pub mod Lines
use d8x_etherfi.Base.{ℕ, List, [], ◌∷◌, Option, some, Text, Result, ok, err}
use d8x_etherfi.Base.Int.{ℤ}
use d8x_etherfi.Base.Dict.{Dict}
use d8x_etherfi.Utils.Payload.{Payload}
use d8x_etherfi.Etherfi.App.{App}
use d8x_etherfi.Etherfi.Queries.{Env, block_arg, query_lp_balances}
use d8x_etherfi.Etherfi.Traders.{query_trader_balances}
use d8x_etherfi.Etherfi.Combine.{Float, Balance}
use d8x_etherfi.Etherfi.Store.{Db}
use d8x_etherfi.Etherfi.Request.{Select, DbAnswers, requested_addrs, with_traders}

-- The world as one goroutine sees it: with what all others do to it before each of its next calls.
-- When the list is through, they do nothing more.
abbrev pub Shared : Type 0 → Type 0
Shared W = W × List (W → W)

module _ {W : Type 0} where
  -- The world at the next call.
  abbrev pub turn : Shared W → W
  turn (w, []) = w
  turn (w, change ∷ changes) = change w

  abbrev pub later : Shared W → List (W → W)
  later (w, []) = []
  later (w, change ∷ changes) = changes

  -- A call of a goroutine, after the others.
  abbrev pub beside : {A : Type 0} → (W → A × W) → Shared W → A × Shared W
  beside call s = let (a, w) = call (turn s) in (a, (w, later s))

module _ {W Client Contract Caller Erc20 Manager : Type 0}
    (env : Env W Client Contract Caller Erc20 Manager) where
  -- The nodes and the handler, with the others in between.
  abbrev pub shared : Env (Shared W) Client Contract Caller Erc20 Manager
  shared = record {
    geth = env.geth;
    pool = record {
      get_rpc = λ s. env.pool.get_rpc (turn s);
      get_next_rpc = beside env.pool.get_next_rpc;
      wait_for_token = λ client s. (env.pool.wait_for_token client (turn s), later s);
    };
    node = record {
      new_contract = env.node.new_contract;
      new_caller = env.node.new_caller;
      call = λ caller block calls. beside (env.node.call caller block calls);
      new_erc20 = env.node.new_erc20;
      erc20_balance_of = λ tkn block a. beside (env.node.erc20_balance_of tkn block a);
      erc20_total_supply = λ tkn block. beside (env.node.erc20_total_supply tkn block);
      erc20_decimals = λ tkn block. beside (env.node.erc20_decimals tkn block);
      new_manager = env.node.new_manager;
      count_active_perp_accounts =
          λ m block id. beside (env.node.count_active_perp_accounts m block id);
      get_active_perp_accounts_by_chunks = λ m block id from to.
          beside (env.node.get_active_perp_accounts_by_chunks m block id from to);
    };
    to_dec_n = env.to_dec_n;
  }

  module _ {F : Type 0} (app : App F) (db : Db) (float : Float F)
      (range : Dict Text ℤ → List (Text × ℤ)) (select : Select) (answers : DbAnswers) where
    -- The answer, from the world at which the traders' goroutine, the providers' and the rest of
    -- `Balances` start, each with what all others do before its calls: the others' calls are among
    -- these changes.
    unfoldable pub interleaved :
        Shared W → Shared W → Shared W → Payload → Result (Option (List (Balance F)))
    unfolding requested_addrs with_traders
    interleaved at_traders at_lps at_handler req =
        elim (requested_addrs shared app db float range select answers req) [
          | err e ↦ err e
          | ok addrs ↦
              let block = some (block_arg req.block_number) in
              let queried = (query_trader_balances shared app block at_traders).0 in
              let lps = (query_lp_balances shared app addrs req.block_number at_lps).0 in
              (with_traders shared app db float range select answers req addrs lps queried
                at_handler).0
        ]
