-- ===== src/Etherfi/Request/Interleaved/Views.antt =====
-- Nodes that agree on the state at a block do so for each of several goroutines.
use d8x_etherfi.Base.{ℕ, inl, inr, Error, Option, some}
use d8x_etherfi.Base.Int.{ℤ}
use d8x_etherfi.Etherfi.App.{App}
use d8x_etherfi.Etherfi.Queries.{Env, block_arg}
use d8x_etherfi.Etherfi.Queries.Accounts.{
  Ledger, NodeFails, count_fails, list_fails, call_fails, caller_fails,
}
use d8x_etherfi.Etherfi.Queries.Providers.{
  Reserves, TokenFails, LatestBalance, bind_fails, supply_fails, balance_fails, NodeError,
}
use d8x_etherfi.Etherfi.Request.Interleaved.{shared, turn}

module _ {W Client Contract Caller Erc20 Manager F : Type 0}
    (env : Env W Client Contract Caller Erc20 Manager) (app : App F) where
  module _ (block : Option ℤ) where
    abbrev pub shared_ledger : Ledger env app block → Ledger (shared env) app block
    shared_ledger ledger = record {
      accounts = ledger.accounts;
      cash = ledger.cash;
      contract = ledger.contract;
      parsed = ledger.parsed;
      counted = λ m id s. ledger.counted m id (turn s);
      listed = λ m id from to s. ledger.listed m id from to (turn s);
      called = λ caller id addrs s. ledger.called caller id addrs (turn s);
    }

    pub shared-NodeFails :
        (e : Error) → NodeFails (shared env) app block e → NodeFails env app block e
    shared-NodeFails e (count_fails m id s q) = count_fails m id (turn s) q
    shared-NodeFails e (list_fails m id from to s q) = list_fails m id from to (turn s) q
    shared-NodeFails e (call_fails caller calls s q) = call_fails caller calls (turn s) q
    shared-NodeFails e (caller_fails client q) = caller_fails client q

  pub shared-LatestBalance : (b : ℤ) → LatestBalance (shared env) app b → LatestBalance env app b
  shared-LatestBalance b (client, tkn, s, p, q) = (client, tkn, turn s, p, q)

  module _ (n : ℕ) where
    abbrev pub shared_reserves : Reserves env app n → Reserves (shared env) app n
    shared_reserves reserves = record {
      supply = reserves.supply;
      held = reserves.held;
      contract = reserves.contract;
      parsed = reserves.parsed;
      called = reserves.called;
      calls_held = reserves.calls_held;
      supplied = λ client tkn s. reserves.supplied client tkn (turn s);
      agreed = λ caller calls s. reserves.agreed caller calls (turn s);
    }

    pub shared-TokenFails : (e : Error) → TokenFails (shared env) app n e → TokenFails env app n e
    shared-TokenFails e (bind_fails a client q) = bind_fails a client q
    shared-TokenFails e (supply_fails tkn b s q) = supply_fails tkn b (turn s) q
    shared-TokenFails e (balance_fails tkn b a s q) = balance_fails tkn b a (turn s) q

    pub shared-NodeError : (e : Error) → NodeError (shared env) app n e → NodeError env app n e
    shared-NodeError e (inl h) = inl (shared-NodeFails (some (block_arg n)) e h)
    shared-NodeError e (inr (inl h)) = inr (inl (shared-TokenFails e h))
    shared-NodeError e (inr (inr (inl h))) = inr (inr (inl h))
    shared-NodeError e (inr (inr (inr (caller, calls, s, q)))) =
        inr (inr (inr (caller, calls, turn s, q)))
