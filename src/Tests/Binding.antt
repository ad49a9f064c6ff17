-- ===== src/Tests/Binding.antt =====
-- The binding of the ERC-20 contract over small stand-ins for go-ethereum.
use d8x_etherfi.Base.{
  ℕ, ◌%◌, refl, inl, inr, Bool-cases, List, [], ◌∷◌, Option, none, some, Text, ok, eqb, false,
  if◌then◌else◌,
}
use d8x_etherfi.Base.Int.{ℤ, pos, pos_part}
use d8x_etherfi.Contracts.{Bind, Erc20, new_erc20}
use d8x_etherfi.Contracts.Caller.{balance_of, total_supply, decimals}
use d8x_etherfi.Contracts.Events.{
  Erc20Transfer, Unpack, Signal, arrived, ended, Feed, Iterator, filter,
}
use d8x_etherfi.Contracts.Events.Drained
use d8x_etherfi.Contracts.Events.Drained.{IsDelivering, Drained, readable, drain, filter-Drained}
use d8x_etherfi.Contracts.Watch.{
  Choice, log_arrives, sink_takes, quits, Watcher, unsubscribed, new_watcher, watch, run, step,
}
use d8x_etherfi.Contracts.Watch.Sent.{Sent, watch-Sent}
use d8x_etherfi.Etherfi.Queries.{
  Env, block_arg, query_pool_tkn_total_balance, query_share_tkn_supply, query_token_decimals,
}
use d8x_etherfi.Etherfi.Queries.Bound.{IsBound, Asked, queries-Asked}
use d8x_etherfi.Tests.World.{app, env, flaky, node}

-- A contract is its address, and every method has 18 for its output.
abbrev bind : Bind ℕ ℕ ℕ ℕ (Option ℤ) ℕ ℕ ℤ
bind = record {
  get_abi = λ name. ok 0;
  new_bound_contract = λ a abi c t f. a;
  call = λ c opts method params. flaky (pos 18 ∷ []);
  transact = λ c opts method params. flaky 1;
  transfer = λ c opts. flaky 1;
  of_address = pos;
  of_int = λ x. x;
  to_int = some;
  to_uint8 = λ x. some (pos_part x);
  to_string = λ x. none;
}

abbrev bound_env : Env ℕ ℕ Text ℕ (Erc20 ℕ) ℕ
bound_env = record {
  geth = env.geth;
  pool = env.pool;
  node = record {
    new_contract = node.new_contract;
    new_caller = node.new_caller;
    call = node.call;
    new_erc20 = new_erc20 bind;
    erc20_balance_of = λ e opts a. flaky (pos 18);
    erc20_total_supply = λ e opts. flaky (pos 18);
    erc20_decimals = λ e opts. flaky 18;
    new_manager = node.new_manager;
    count_active_perp_accounts = node.count_active_perp_accounts;
    get_active_perp_accounts_by_chunks = node.get_active_perp_accounts_by_chunks;
  };
  to_dec_n = env.to_dec_n;
}

is_bound : IsBound bind bound_env
unfolding balance_of total_supply decimals
is_bound = record {
  creates = λ a rpc. refl;
  balances = λ e opts a w. elim (Bool-cases (eqb (w % 3) 0)) [ inl q ↦ rw q | inr q ↦ rw q ];
  supplies = λ e opts w. elim (Bool-cases (eqb (w % 3) 0)) [ inl q ↦ rw q | inr q ↦ rw q ];
  has_decimals = λ e opts w. elim (Bool-cases (eqb (w % 3) 0)) [ inl q ↦ rw q | inr q ↦ rw q ];
}

queries-Asked_example :
    Asked bind bound_env
      (ok 0)
      some
      b't'
      none
      "balanceOf"
      (pos b'p' ∷ [])
      1
      5
      (query_pool_tkn_total_balance bound_env app 9 1 5)
    × Asked bind bound_env
        (ok 0)
        some
        b's'
        (some (block_arg 9))
        "totalSupply"
        []
        1
        5
        (query_share_tkn_supply bound_env app 9 1 5)
    × Asked bind bound_env
        (ok 0)
        bind.to_uint8
        b't'
        none
        "decimals"
        []
        1
        5
        (query_token_decimals bound_env (b't' ∷ []) 1 5)
queries-Asked_example = queries-Asked bind bound_env is_bound app 9 1 5

-- A log is a number, which is the value of its transfer; 3 cannot be unpacked.
abbrev unpack : Unpack ℕ ℕ Erc20Transfer
unpack c name log =
    (record { from = 1; to = 2; value = pos log }, if eqb log 3 then some "bad log" else none)

-- The state is what the subscription still has to send.
abbrev receive_log : List ℕ → Signal ℕ × List ℕ
receive_log [] = (ended none, [])
receive_log (log ∷ logs) = (arrived log, logs)

abbrev poll : List ℕ → Option ℕ × List ℕ
poll [] = (none, [])
poll (log ∷ logs) = (some log, logs)

abbrev feed : Feed (List ℕ) ℕ ℕ ℤ ℕ ℕ
feed = record {
  filter_logs = λ c opts name rules w. (ok 0, w);
  receive = λ sub. receive_log;
  poll = λ sub. poll;
  unsubscribe = λ sub w. w;
}

received : (w : List ℕ) → Drained.Received feed 0 (λ v. v) (λ v. none) w none (receive_log w)
received [] = (refl, refl)
received (log ∷ logs) = (refl, refl, refl)

delivering : IsDelivering feed 0
delivering = record {
  pending = λ w. w;
  ending = λ w. none;
  receives = received;
  polls = λ w e. rw e (refl, refl);
}

abbrev iterator : Iterator Erc20Transfer ℕ ℕ ℕ
iterator = record {
  event = none;
  contract = 7;
  event_name = "Transfer";
  sub = 0;
  done = false;
  fail = none;
}

abbrev logs : List ℕ
logs = 1 ∷ 2 ∷ 3 ∷ 4 ∷ []

filter-Drained_example :
    Drained feed unpack (readable unpack 7 "Transfer" logs) none (drain feed unpack 5 iterator logs)
unfolding filter delivering drain
filter-Drained_example =
    filter-Drained feed unpack "Transfer" pos (record { contract = 7 }) 0 [] [] logs logs iterator
      refl delivering

-- The sink takes one event, and the subscriber ends while the next is on offer.
abbrev choices : List (Choice ℕ)
choices = log_arrives 1 ∷ sink_takes ∷ log_arrives 2 ∷ quits ∷ []

abbrev watched : Watcher Erc20Transfer ℕ
watched = record {
  watching = unsubscribed none;
  sunk = record { fields = record { from = 1; to = 2; value = pos 1 }; raw = some 1 } ∷ [];
}

watch-Sent_example : Sent unpack 7 "Transfer" (1 ∷ 2 ∷ []) (unsubscribed none) watched.sunk
unfolding watch run step
watch-Sent_example =
    watch-Sent {WatchOpts = ℕ} {Value = ℤ} {Sub = ℕ} (λ c opts name rules (w : ℕ). (ok 0, w)) unpack
      pos (record { contract = 7 }) 0 [] [] "Transfer" 5 5 0 new_watcher watched choices refl refl
