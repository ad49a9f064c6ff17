-- ===== src/Tests/Reports.antt =====
-- Reports of balances, and what they are put together from.
use d8x_etherfi.Base.{
  ℕ, ◌≡◌, refl, List, [], ◌∷◌, Option, none, some, Text, text_eq, ok, true, false, All, arith,
}
use mathlib.Core.List.{Perm}
use mathlib.Core.List.Perm.{refl as perm_refl}
use d8x_etherfi.Base.Int.{ℤ, pos, ◌+ℤ◌, ◌-ℤ◌, ◌≤ℤ◌, ◌*ℤ◌, div}
use d8x_etherfi.Base.Dict.{Dict, total, balance_of}
use d8x_etherfi.Etherfi.Queries.{
  pool_balance, query_pool_tkn_total_balance, create_erc20_instance, query_token_balance,
}
use d8x_etherfi.Etherfi.Retry.{retry_query, retry_loop}
use d8x_etherfi.Etherfi.Traders.{collect}
use d8x_etherfi.Etherfi.Traders.Cash.{cash_of, collect_balance}
use d8x_etherfi.Etherfi.Delegates.{reassign, reassign_one, reassign_trader_balances}
use d8x_etherfi.Etherfi.Delegates.Moves.{reassign_lem, reassign_own-loses}
use d8x_etherfi.Etherfi.Shares.{share, shares, attribute_lp_balances}
use d8x_etherfi.Etherfi.Shares.Bounds.{sum_ℤ, shares_bounds}
use d8x_etherfi.Etherfi.Combine.{Balance, combine_balances, addr_loop, trader_loop}
use d8x_etherfi.Etherfi.Combine.Conserved.{Stands, combine_balances-Stands}
use d8x_etherfi.Etherfi.Combine.Exact.{combine_balances-short}
use d8x_etherfi.Etherfi.Balances.{
  TraderChan, LpChan, trader_message, lp_message, from_traders, from_lps, Runs, here, next, start,
  receive, receiving, Config, trader_messages, lp_messages, finish_balances, no_traders, no_lps,
}
use d8x_etherfi.Etherfi.Balances.Messages.{Outcome, handler-Outcome}
use d8x_etherfi.Etherfi.Balances.{after_loop}
use d8x_etherfi.Etherfi.Balances.Whole.{after_loop-PaysOut}
use d8x_etherfi.Etherfi.Balances.Paid.{PaysOut}
use d8x_etherfi.Tests.World.{env, app, float, range, addrs, traders, text_a, text_b, text_c}

pub range-runs : (d : Dict Text ℤ) → Perm (range d) d
range-runs d = perm_refl d

-- The first two calls fail and the third gives the balance.
pool_balance-1000 : (pool_balance env app 9 5).0 ≡ ok (pos 1000)
unfolding retry_query retry_loop query_pool_tkn_total_balance create_erc20_instance
    query_token_balance
pool_balance-1000 = refl

finish_balances-runs :
    (finish_balances env app float range addrs false
      (pos 4 ∷ pos 6 ∷ [])
      (pos 10)
      (pos 100)
      traders
      9
      5).0
    ≡ ok (
        some (
          record { address = text_a; eff_balance = pos 360 }
          ∷ record { address = text_b; eff_balance = pos 547 }
          ∷ record { address = text_c; eff_balance = pos 93 }
          ∷ []))
unfolding finish_balances attribute_lp_balances retry_query retry_loop query_pool_tkn_total_balance
    create_erc20_instance query_token_balance shares share combine_balances addr_loop trader_loop
    ◌+ℤ◌ ◌-ℤ◌ ◌*ℤ◌ div
finish_balances-runs = refl

abbrev found_traders : TraderChan
found_traders = record { trader_bal = traders; total = some (pos 100) }

abbrev found_lps : LpChan
found_lps = record { sh_tkn_bal = pos 4 ∷ []; sh_tkn_total = some (pos 10) }

-- The providers' message comes first.
abbrev ended : Config
ended = record { traders = []; lps = []; handler = receiving 0 found_traders found_lps }

both_messages :
    Runs
      (start
        (trader_messages (ok (traders, pos 100)) (ok []))
        (lp_messages (ok (pos 4 ∷ [], pos 10))))
      ended
unfolding trader_messages lp_messages receive reassign_trader_balances reassign
both_messages =
    next
      (from_lps (lp_message found_lps) (trader_message found_traders ∷ []) [] 1 no_traders no_lps)
      (next (from_traders (trader_message found_traders) [] [] 0 no_traders found_lps) (here ended))

handler-Outcome_example :
    Outcome
      (trader_messages (ok (traders, pos 100)) (ok []))
      (lp_messages (ok (pos 4 ∷ [], pos 10)))
      ended
handler-Outcome_example =
    handler-Outcome (ok (traders, pos 100)) (ok []) (ok (pos 4 ∷ [], pos 10)) ended both_messages tt

-- With a strategy wallet among the traders, and the traders' message first.
abbrev moved_traders : TraderChan
moved_traders = record {
  trader_bal = reassign ((text_c, text_a) ∷ []) traders;
  total = some (pos 100);
}

abbrev both_lps : LpChan
both_lps = record { sh_tkn_bal = pos 4 ∷ pos 6 ∷ []; sh_tkn_total = some (pos 10) }

abbrev whole_report : Config
whole_report = record { traders = []; lps = []; handler = receiving 0 moved_traders both_lps }

whole_messages :
    Runs
      (start
        (trader_messages (ok (traders, pos 100)) (ok ((text_c, text_a) ∷ [])))
        (lp_messages (ok (pos 4 ∷ pos 6 ∷ [], pos 10))))
      whole_report
unfolding trader_messages lp_messages receive reassign_trader_balances
whole_messages =
    next
      (from_traders (trader_message moved_traders) [] (lp_message both_lps ∷ []) 1 no_traders
        no_lps)
      (next (from_lps (lp_message both_lps) [] [] 0 moved_traders no_lps) (here whole_report))

a≢c : text_c ≡ text_a → ⊥
a≢c e = ground arith

after_loop-PaysOut_example :
    (r : Option (List (Balance ℤ))) × ((after_loop env app float range addrs false 9
        whole_report.handler 5).0
      ≡ ok r)
    × PaysOut env app float range range-runs 5 9 r (pos 1000) 10 10 2
unfolding ◌+ℤ◌ ◌-ℤ◌
after_loop-PaysOut_example =
    after_loop-PaysOut env app float range range-runs 5 9 addrs traders (pos 100)
      ((text_c, text_a) ∷ []) (4 ∷ 6 ∷ []) 10 900 (pos 1000) whole_report whole_messages tt refl
      (a≢c, tt) refl (omega arith) (omega arith) refl pool_balance-1000

combine_balances-Stands_example :
    (out : List (Balance ℤ)) × (combine_balances float 0 range addrs false
        (pos 360 ∷ pos 540 ∷ [])
        traders
      ≡ some out)
    × Stands float 0 out (sum_ℤ (pos 360 ∷ pos 540 ∷ []) +ℤ total traders)
combine_balances-Stands_example =
    combine_balances-Stands float 0 range addrs (pos 360 ∷ pos 540 ∷ []) traders range-runs refl

a≢b : text_a ≡ text_b → ⊥
a≢b e = ground arith

combine_balances-short_example : combine_balances float 0 range addrs true [] traders ≡ none
combine_balances-short_example =
    combine_balances-short float 0 range true addrs [] traders (omega arith)

abbrev pairs : List (Text × Text)
pairs = (text_b, text_a) ∷ []

reassign_lem_example :
    All (λ p. balance_of p.0 (reassign pairs traders) ≡ pos 0) pairs
    × (total (reassign pairs traders) ≡ total traders)
reassign_lem_example = reassign_lem pairs traders ((a≢b, tt), tt)

reassign_own-loses_example : total (reassign_one (text_b, text_b) traders) +ℤ pos 7 ≡ total traders
reassign_own-loses_example = reassign_own-loses text_b traders

abbrev three : ℕ
three = 3

shares_bounds_example :
    (sum_ℤ (shares (pos 100) (pos 3) (pos 1 ∷ pos 2 ∷ [])) ≤ℤ pos 100)
    × (three ≡ three → pos 100 ≤ℤ sum_ℤ (shares (pos 100) (pos 3) (pos 1 ∷ pos 2 ∷ [])) +ℤ pos 2)
shares_bounds_example = shares_bounds 100 3 (1 ∷ 2 ∷ []) (omega arith) (omega arith)

-- Accounts of the manager itself, 112, are left out.
collected :
    collect
      (λ a. a ∷ [])
      (b'p' ∷ [])
      (b'a' ∷ b'p' ∷ b'a' ∷ [])
      (pos 1 ∷ pos 2 ∷ pos 3 ∷ [])
      []
      (pos 0)
    ≡ some ((text_a, pos 4) ∷ [], pos 4)
unfolding collect ◌+ℤ◌
collected = refl

collect_balance_example :
    pos 4
    ≡ cash_of
        (λ a. a ∷ [])
        (b'p' ∷ [])
        text_a
        (b'a' ∷ b'p' ∷ b'a' ∷ [])
        (pos 1 ∷ pos 2 ∷ pos 3 ∷ [])
collect_balance_example =
    collect_balance (λ a. a ∷ []) (b'p' ∷ []) text_a (b'a' ∷ b'p' ∷ b'a' ∷ [])
      (pos 1 ∷ pos 2 ∷ pos 3 ∷ []) collected
