-- ===== src/Etherfi/Request/Interleaved/Lines.antt =====
-- A request for given addresses, its goroutines side by side.
use d8x_etherfi.Base.{
  ℕ, ◌<◌, ◌≡◌, List, Option, none, some, Text, Result, ok, err, false, length, arith, eqb,
}
use d8x_etherfi.Base.Int.{ℤ}
use d8x_etherfi.Base.Dict.{Dict}
use d8x_etherfi.Etherfi.App.{App}
use d8x_etherfi.Etherfi.Retry.{no_contract_code}
use d8x_etherfi.Etherfi.Queries.{Env, block_arg, query_lp_balances}
use d8x_etherfi.Etherfi.Queries.Accounts.{Ledger}
use d8x_etherfi.Etherfi.Queries.Providers.{Reserves, query_lp_balances-ProvidersAnswer}
use d8x_etherfi.Etherfi.Traders.{query_trader_balances}
use d8x_etherfi.Etherfi.Traders.Exact.{query_trader_balances-TraderAnswer}
use d8x_etherfi.Etherfi.Combine.{Float, Balance}
use d8x_etherfi.Etherfi.Combine.Exact.{Distinct}
use d8x_etherfi.Etherfi.Store.{Db, db_find_strategy_delegates}
use d8x_etherfi.Etherfi.Request.{Select, IsFair, DbAnswers, requested_addrs}
use d8x_etherfi.Etherfi.Request.Told.{IsThere, Told, with_traders-Told}
use d8x_etherfi.Etherfi.Request.Interleaved.{Shared, shared, interleaved}
use d8x_etherfi.Etherfi.Request.Interleaved.Views.{
  shared_ledger, shared_reserves, shared-NodeFails, shared-TokenFails, shared-LatestBalance,
  shared-NodeError,
}

module _ {W Client Contract Caller Erc20 Manager F : Type 0}
    (env : Env W Client Contract Caller Erc20 Manager) (app : App F) (float : Float F)
    (range : Dict Text ℤ → List (Text × ℤ)) (n : ℕ) (ledger : Ledger env app (some (block_arg n)))
    (reserves : Reserves env app n) (there : IsThere env app float range n ledger reserves)
    (addrs : List Text) (distinct : Distinct addrs) (pairs : List (Text × Text)) where
  abbrev ledger' : Ledger (shared env) app (some (block_arg n))
  ledger' = shared_ledger env app (some (block_arg n)) ledger

  abbrev reserves' : Reserves (shared env) app n
  reserves' = shared_reserves env app n reserves

  shared-IsThere : IsThere (shared env) app float range n ledger' reserves'
  shared-IsThere = record {
    accounts_there = λ h.
        there.accounts_there (shared-NodeFails env app (some (block_arg n)) no_contract_code h);
    tokens_there = λ h. there.tokens_there (shared-TokenFails env app n no_contract_code h);
    some_supply = there.some_supply;
  }

  shared-Told :
      (r : Result (Option (List (Balance F))))
      → Told (shared env) app float range n ledger' reserves' shared-IsThere addrs distinct pairs r
      → Told env app float range n ledger reserves there addrs distinct pairs r
  shared-Told (ok none) h = h
  shared-Told (ok (some out)) (b, bal, is, cash, lines) =
      (b, bal, shared-LatestBalance env app b is, cash, lines)
  shared-Told (err e) h = shared-NodeError env app n e h

  -- A request for given addresses, all different, at a block, whose goroutines run side by side,
  -- whatever other goroutines, of this request or of others, do to the nodes and the RPC handler
  -- between any two calls, over nodes that may fail at any time, and where they answer agree on the
  -- accounts, their cash and the share tokens at the block; their answers for the pool's balance,
  -- which the code asks for at the latest block and not at that of the request, may differ and
  -- change. Given that the contracts are there and the supply of the share token at the block is
  -- not 0; that the database answers with the delegations; and that `select` takes the messages of
  -- the goroutines to the end in some order: the answer has one line for each address, in order,
  -- with its balance as a trader after the re-assignment of a map that has the cash of every owner
  -- at the block, and its part as a provider, by the share tokens at the block, of a balance that a
  -- node answered for its latest block, less the traders' cash; or it is the error of a node. It is
  -- no panic.
  pub interleaved-Told :
      (select : Select)
      → IsFair select
      → (db : Db) (answers : DbAnswers) (at_traders at_lps at_handler : Shared W) → 0 < length addrs
      → db_find_strategy_delegates app db answers.delegates_failure n ≡ ok pairs
      → Told env app float range n ledger reserves there addrs distinct pairs (
          interleaved env app db float range select answers at_traders at_lps at_handler
            (record { block_number = n; addresses = addrs }))
  unfolding interleaved requested_addrs
  interleaved-Told select fair db answers t l h some_addrs delegated =
      let exact : eqb (length addrs) 0 ≡ false = ground arith in
      let block = some (block_arg n) in
      let queried = (query_trader_balances (shared env) app block t).0 in
      let lps = (query_lp_balances (shared env) app addrs n l).0 in
      shared-Told
        (interleaved env app db float range select answers t l h
          (record { block_number = n; addresses = addrs }))
        (rw (interleaved, requested_addrs, exact)
          (with_traders-Told (shared env) app float range n ledger' reserves' shared-IsThere addrs
            distinct pairs select fair db answers lps queried h some_addrs delegated
            (query_trader_balances-TraderAnswer (shared env) app block ledger' t)
            (query_lp_balances-ProvidersAnswer (shared env) app n reserves' addrs l)))
