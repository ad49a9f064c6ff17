-- ===== src/Etherfi/Request/Interleaved/Holders.antt =====
-- A request for all holders, its goroutines side by side.
use d8x_etherfi.Base.{ℕ, ◌≡◌, ◌≢◌, List, [], Option, none, some, Text, Result, ok, err, All}
use mathlib.Core.List.{Perm}
use d8x_etherfi.Base.Int.{ℤ}
use d8x_etherfi.Base.Dict.{Dict}
use d8x_etherfi.Chain.{Address}
use d8x_etherfi.Etherfi.App.{App}
use d8x_etherfi.Etherfi.Retry.{no_contract_code}
use d8x_etherfi.Etherfi.Queries.{Env, block_arg, query_lp_balances}
use d8x_etherfi.Etherfi.Queries.Accounts.{Ledger}
use d8x_etherfi.Etherfi.Queries.Providers.{Reserves, query_lp_balances-ProvidersAnswer}
use d8x_etherfi.Etherfi.Traders.{query_trader_balances}
use d8x_etherfi.Etherfi.Traders.Exact.{query_trader_balances-TraderAnswer}
use d8x_etherfi.Etherfi.Combine.{Float, Balance}
use d8x_etherfi.Etherfi.Store.{Db, db_get_share_token_holders, db_find_strategy_delegates}
use d8x_etherfi.Etherfi.Request.{Select, IsFair, DbAnswers, requested_addrs}
use d8x_etherfi.Etherfi.Request.Sound.{IsSolvent, Answer, with_traders-Answer}
use d8x_etherfi.Etherfi.Request.Interleaved.{Shared, shared, interleaved}
use d8x_etherfi.Etherfi.Request.Interleaved.Views.{
  shared_ledger, shared_reserves, shared-NodeFails, shared-TokenFails, shared-LatestBalance,
  shared-NodeError,
}

module _ {W Client Contract Caller Erc20 Manager F : Type 0}
    (env : Env W Client Contract Caller Erc20 Manager) (app : App F) (float : Float F)
    (range : Dict Text ℤ → List (Text × ℤ)) (runs : (d : Dict Text ℤ) → Perm (range d) d) (n : ℕ)
    (ledger : Ledger env app (some (block_arg n))) (reserves : Reserves env app n)
    (holds : Address → ℕ) (supply : ℕ) (addrs : List Text)
    (solvent : IsSolvent env app float range runs n ledger reserves holds supply addrs) where
  abbrev ledger' : Ledger (shared env) app (some (block_arg n))
  ledger' = shared_ledger env app (some (block_arg n)) ledger

  abbrev reserves' : Reserves (shared env) app n
  reserves' = shared_reserves env app n reserves

  shared-IsSolvent :
      IsSolvent (shared env) app float range runs n ledger' reserves' holds supply addrs
  shared-IsSolvent = record {
    accounts_there = λ h.
        solvent.accounts_there (shared-NodeFails env app (some (block_arg n)) no_contract_code h);
    tokens_there = λ h. solvent.tokens_there (shared-TokenFails env app n no_contract_code h);
    supply_is = solvent.supply_is;
    some_supply = solvent.some_supply;
    held_is = solvent.held_is;
    not_more = solvent.not_more;
    covered = λ b h. solvent.covered b (shared-LatestBalance env app b h);
  }

  shared-Answer :
      (r : Result (Option (List (Balance F))))
      → Answer
          (shared env)
          app
          float
          range
          runs
          n
          ledger'
          reserves'
          holds
          supply
          addrs
          shared-IsSolvent
          r
      → Answer env app float range runs n ledger reserves holds supply addrs solvent r
  shared-Answer (ok none) h = h
  shared-Answer (ok (some out)) (b, xs, is, lines, low, high) =
      (b, xs, shared-LatestBalance env app b is, lines, low, high)
  shared-Answer (err e) h = shared-NodeError env app n e h

  -- A request for all holders at a block whose goroutines run side by side, whatever other
  -- goroutines, of this request or of others, do to the nodes and the RPC handler between any two
  -- calls, over nodes that may fail at any time, and where they answer agree on the accounts, their
  -- cash and the share tokens at the block; their answers for the pool's balance, which the code
  -- asks for at the latest block and not at that of the request, may differ and change. Given that
  -- the database answers; that no address delegates to itself; that the contracts are there; that
  -- the holders hold no more of the share token than its supply, which is not 0; that whatever a
  -- node answers for the pool's balance at its latest block is at least the traders' cash at the
  -- block; and that `select` takes the messages of the goroutines to the end in some order: the
  -- answer is a report whose amounts are together at most a balance of the pool that a node
  -- answered for its latest block, and at most one unit for each holder below that balance if the
  -- holders hold all share tokens at the block; or it is the error of a node. It is no panic.
  pub interleaved-Answer :
      (select : Select)
      → IsFair select
      → (pairs : List (Text × Text)) → All (λ p. p.0 ≢ p.1) pairs
      → (db : Db) (answers : DbAnswers) (at_traders at_lps at_handler : Shared W)
      → db_get_share_token_holders app db answers.holders_failure n ≡ ok addrs
      → db_find_strategy_delegates app db answers.delegates_failure n ≡ ok pairs
      → Answer env app float range runs n ledger reserves holds supply addrs solvent (
          interleaved env app db float range select answers at_traders at_lps at_handler
            (record { block_number = n; addresses = [] }))
  unfolding interleaved requested_addrs
  interleaved-Answer select fair pairs apart db answers t l h holders delegated =
      let block = some (block_arg n) in
      let queried = (query_trader_balances (shared env) app block t).0 in
      let lps = (query_lp_balances (shared env) app addrs n l).0 in
      shared-Answer
        (interleaved env app db float range select answers t l h
          (record { block_number = n; addresses = [] }))
        (rw (interleaved, requested_addrs, holders)
          (with_traders-Answer (shared env) app float range runs n ledger' reserves' holds supply
            addrs shared-IsSolvent select fair pairs apart db answers lps queried h delegated
            (query_trader_balances-TraderAnswer (shared env) app block ledger' t)
            (query_lp_balances-ProvidersAnswer (shared env) app n reserves' addrs l)))
