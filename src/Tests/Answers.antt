-- ===== src/Tests/Answers.antt =====
-- A request for all holders over the nodes of the small world.
use d8x_etherfi.Base.{
  ℕ, suc, ◌%◌, ◌≡◌, ◌≢◌, refl, ap, sym, ◌∙◌, List, [], ◌∷◌, map, none, some, ok, err, Error, arith,
  err_injective, Bool-cases, inl, inr, eqb,
}
use d8x_etherfi.Base.Int.{ℤ, pos, ◌+ℤ◌, ◌-ℤ◌}
use d8x_etherfi.Chain.{Call}
use d8x_etherfi.Rounds.Chunks.{slice}
use d8x_etherfi.Etherfi.Queries.Answers.{map-map}
use d8x_etherfi.Utils.Address.{to_lower}
use d8x_etherfi.Etherfi.Retry.{no_contract_code}
use d8x_etherfi.Etherfi.Queries.{block_arg, query_lp_balances}
use d8x_etherfi.Etherfi.Queries.Accounts.{
  Ledger, NodeFails, count_fails, list_fails, call_fails, caller_fails,
}
use d8x_etherfi.Etherfi.Queries.Providers.{
  Reserves, ProvidersAnswer, query_lp_balances-ProvidersAnswer, TokenFails, bind_fails,
  supply_fails, balance_fails,
}
use d8x_etherfi.Etherfi.Traders.{query_trader_balances}
use d8x_etherfi.Etherfi.Traders.Exact.{
  traders_cash, TraderAnswer, query_trader_balances-TraderAnswer,
}
use d8x_etherfi.Etherfi.Delegates.{reassign_trader_balances}
use d8x_etherfi.Etherfi.Store.{Db, db_get_share_token_holders, db_find_strategy_delegates}
use d8x_etherfi.Etherfi.Balances.{
  Message, trader_message, err_message, Handler, receiving, returned, receive, Config, Runs, here,
  next, from_traders, from_lps, TraderChan, start, trader_messages, lp_messages, no_traders, no_lps,
}
use d8x_etherfi.Etherfi.Balances.Messages.{Final}
use d8x_etherfi.Etherfi.Request.{Select, IsFair, DbAnswers, balances}
use d8x_etherfi.Etherfi.Request.Told.{IsThere, Told, balances-Told}
use d8x_etherfi.Etherfi.Request.Sound.{IsSolvent, Answer, balances-Answer}
use d8x_etherfi.Tests.Reports.{range-runs}
use d8x_etherfi.Tests.World.{
  env, app, float, range, flaky, flaky-ok, held, answer, accounts, addrs, text_a, text_b, text_c,
}
use d8x_etherfi.Etherfi.App.{App}

-- The service after its first round of the event sync.
abbrev pub synced_app : App ℤ
synced_app = record app { last_delegates = 9; last_transfers = 12 }

-- The handler takes the traders' message first, and then that of the providers.
abbrev then_lps : List Message → Handler → Handler
then_lps (l ∷ ls) (receiving (suc k) t lp) = receive l k t lp
then_lps ls h = h

abbrev pub in_turn : Select
in_turn [] ls = then_lps ls (receiving 2 no_traders no_lps)
in_turn (m ∷ ms) ls = then_lps ls (receive m 1 no_traders no_lps)

stays : (ls : List Message) {e : Error} → then_lps ls (returned e) ≡ returned e
stays [] = refl
stays (l ∷ ls) = refl

abbrev Ends : List Message → List Message → Type 0
Ends ts ls = (d : Config) × Runs (start ts ls) d × Final d.handler × (in_turn ts ls ≡ d.handler)

error_in_turn : (e : Error) (ms ls : List Message) → Ends (err_message e ∷ ms) ls
unfolding receive
error_in_turn e ms ls = (
  record { traders = ms; lps = ls; handler = returned e },
  next (from_traders (err_message e) ms ls 1 no_traders no_lps) (here _),
  tt,
  stays ls,
)

two_in_turn :
    (t : TraderChan) (l : Message) (ls : List Message)
    → Final (receive l 0 t no_lps)
    → Ends (trader_message t ∷ []) (l ∷ ls)
unfolding receive
two_in_turn t l ls f = (
  record { traders = []; lps = ls; handler = receive l 0 t no_lps },
  next (from_traders (trader_message t) [] (l ∷ ls) 1 no_traders no_lps)
      (next (from_lps l [] ls 0 t no_lps) (here _)),
  f,
  refl,
)

pub in_turn-IsFair : IsFair in_turn
unfolding trader_messages lp_messages receive reassign_trader_balances
in_turn-IsFair (ok (bal, tot)) (ok pairs) (ok (balcs, s)) = two_in_turn _ _ _ tt
in_turn-IsFair (ok (bal, tot)) (ok pairs) (err g) = two_in_turn _ _ _ tt
in_turn-IsFair (ok (bal, tot)) (err e) (ok (balcs, s)) = error_in_turn e _ _
in_turn-IsFair (ok (bal, tot)) (err e) (err g) = error_in_turn e _ _
in_turn-IsFair (err e) (ok pairs) (ok (balcs, s)) = error_in_turn e _ _
in_turn-IsFair (err e) (ok pairs) (err g) = error_in_turn e _ _
in_turn-IsFair (err e) (err b) (ok (balcs, s)) = error_in_turn e _ _
in_turn-IsFair (err e) (err b) (err g) = error_in_turn e _ _

abbrev pub ledger : Ledger env synced_app (some (block_arg 9))
ledger = record {
  accounts = λ id. accounts;
  cash = λ id a. pos 7;
  contract = b'p' ∷ [];
  parsed = refl;
  counted = λ m id w n q. sym (flaky-ok 2 n w q);
  listed = λ m id from to w xs q. flaky-ok (slice from to accounts) xs w q;
  called = λ caller id from w xs q.
      flaky-ok (map answer (map (Call.get_available_cash (b'p' ∷ []) id) from)) xs w q
      ∙ map-map answer (Call.get_available_cash (b'p' ∷ []) id) from;
}

abbrev pub reserves : Reserves env synced_app 9
reserves = record {
  supply = pos 15;
  held = held;
  contract = b's' ∷ [];
  parsed = refl;
  called = answer;
  calls_held = λ a. refl;
  supplied = λ client tkn w t q p. flaky-ok (pos 15) t w p;
  agreed = λ caller calls w xs q. flaky-ok (map answer calls) xs w q;
}

abbrev pub db : Db
db = record {
  sh_tkn_transfer =
      record {
        from = text_c;
        to = text_a;
        block = pos 6;
        to_block = 9;
        sh_tkn = b's' ∷ [];
        chain_id = pos 42;
      }
      ∷ record {
        from = text_a;
        to = text_b;
        block = pos 8;
        to_block = 9;
        sh_tkn = b's' ∷ [];
        chain_id = pos 42;
      }
      ∷ [];
  delegates =
      record {
        addr = text_c;
        delegate = text_a;
        block = pos 7;
        index = pos 2;
        to_block = 9;
        chain_id = pos 42;
      }
      ∷ [];
}

abbrev pub answers : DbAnswers
answers = record { holders_failure = none; delegates_failure = none }

-- The nodes fail only when they are busy.
busy : {A : Type 0} (x : A) (w : ℕ) → (flaky x w).0 ≢ err no_contract_code
busy x w q = elim (Bool-cases (eqb (w % 3) 0)) [
  | inl z ↦ cc (err_injective (rw z at q))
  | inr z ↦ cc (rw z at q)
]

accounts_there : NodeFails env synced_app (some (block_arg 9)) no_contract_code → ⊥
accounts_there (count_fails m id w q) = busy 2 w q
accounts_there (list_fails m id from to w q) = busy (slice from to accounts) w q
accounts_there (call_fails caller calls w q) = busy (map answer calls) w q
accounts_there (caller_fails client q) = cc

tokens_there : TokenFails env synced_app 9 no_contract_code → ⊥
tokens_there (bind_fails a client q) = cc
tokens_there (supply_fails tkn b w q) = busy (pos 15) w q
tokens_there (balance_fails tkn b a w q) = busy (pos 1000) w q

pub solvent :
    IsSolvent env synced_app float range range-runs 9 ledger reserves (λ a. a % 10) 15 addrs
unfolding ◌-ℤ◌ ◌+ℤ◌ to_lower
solvent = record {
  accounts_there = accounts_there;
  tokens_there = tokens_there;
  supply_is = refl;
  some_supply = omega arith;
  held_is = λ a. refl;
  not_more = omega arith;
  covered = λ b (client, tkn, w, p, q). (
    986,
    ap (λ t. t -ℤ traders_cash env synced_app (some (block_arg 9)) ledger)
        (flaky-ok (pos 1000) b w q),
  );
}

pub c≢a : text_c ≢ text_a
c≢a e = ground arith

balances-Answer_example :
    Answer env synced_app float range range-runs 9 ledger reserves
      (λ a. a % 10)
      15
      addrs
      solvent
      (balances env synced_app db float range in_turn answers
        (record { block_number = 9; addresses = [] })
        5).0
unfolding db_get_share_token_holders db_find_strategy_delegates
balances-Answer_example =
    balances-Answer env synced_app float range range-runs 9 ledger reserves (λ a. a % 10) 15 addrs
      solvent in_turn in_turn-IsFair ((text_c, text_a) ∷ []) (c≢a, tt) db answers 5 refl refl

query_trader_balances-TraderAnswer_example :
    TraderAnswer env synced_app
      (some (block_arg 9))
      ledger
      (query_trader_balances env synced_app (some (block_arg 9)) 5).0
query_trader_balances-TraderAnswer_example =
    query_trader_balances-TraderAnswer env synced_app (some (block_arg 9)) ledger 5

query_lp_balances-ProvidersAnswer_example :
    ProvidersAnswer env synced_app 9 reserves addrs (query_lp_balances env synced_app addrs 9 5).0
query_lp_balances-ProvidersAnswer_example =
    query_lp_balances-ProvidersAnswer env synced_app 9 reserves addrs 5

pub there : IsThere env synced_app float range 9 ledger reserves
there = record {
  accounts_there = accounts_there;
  tokens_there = tokens_there;
  some_supply = λ e. cc;
}

pub b≢c : text_b ≢ text_c
b≢c e = ground arith

balances-Told_example :
    Told env synced_app float range 9 ledger reserves there
      (text_b ∷ text_c ∷ [])
      ((b≢c, tt), (tt, tt))
      ((text_c, text_a) ∷ [])
      (balances env synced_app db float range in_turn answers
        (record { block_number = 9; addresses = text_b ∷ text_c ∷ [] })
        5).0
unfolding db_find_strategy_delegates
balances-Told_example =
    balances-Told env synced_app float range 9 ledger reserves there (text_b ∷ text_c ∷ [])
      ((b≢c, tt), (tt, tt)) ((text_c, text_a) ∷ []) in_turn in_turn-IsFair db answers 5
      (omega arith) refl
