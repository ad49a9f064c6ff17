-- ===== src/Etherfi/Balances/Whole.antt =====
-- A report for all holders, from the results of the queries to the answer.
use d8x_etherfi.Base.{
  ℕ, ◌≤◌, ◌<◌, ◌≡◌, ◌≢◌, ap, sym, ◌∙◌, List, map, Option, some, Text, ok, false, length, All,
}
use mathlib.Core.List.{Perm}
use d8x_etherfi.Base.Int.{ℤ, pos, ◌-ℤ◌}
use d8x_etherfi.Base.Dict.{Dict, total}
use d8x_etherfi.Etherfi.App.{App}
use d8x_etherfi.Etherfi.Queries.{Env, pool_balance}
use d8x_etherfi.Etherfi.Delegates.{reassign, reassign_trader_balances}
use d8x_etherfi.Etherfi.Delegates.Moves.{total-reassign}
use d8x_etherfi.Etherfi.Shares.Bounds.{sum}
use d8x_etherfi.Etherfi.Combine.{Float, Balance}
use d8x_etherfi.Etherfi.Balances.{
  Config, Runs, start, receiving, trader_messages, lp_messages, finish_balances, after_loop,
}
use d8x_etherfi.Etherfi.Balances.Messages.{Final, handler-Outcome}
use d8x_etherfi.Etherfi.Balances.Paid.{PaysOut, finish_balances-PaysOut}

-- With both queries answered, every run ends with what they found.
collected :
    (bal : Dict Text ℤ) (tot : ℤ) (pairs : List (Text × Text)) (balcs : List ℤ) (supply : ℤ)
    (d : Config)
    → Runs (start (trader_messages (ok (bal, tot)) (ok pairs)) (lp_messages (ok (balcs, supply)))) d
    → Final d.handler
    → d.handler
      ≡ receiving 0
          (record { trader_bal = reassign pairs bal; total = some tot })
          (record { sh_tkn_bal = balcs; sh_tkn_total = some supply })
unfolding trader_messages lp_messages reassign_trader_balances
collected bal tot pairs balcs supply d r f =
    handler-Outcome (ok (bal, tot)) (ok pairs) (ok (balcs, supply)) d r f

module _ {W Client Contract Caller Erc20 Manager F : Type 0}
    (env : Env W Client Contract Caller Erc20 Manager) (app : App F) (float : Float F)
    (range : Dict Text ℤ → List (Text × ℤ)) (runs : (d : Dict Text ℤ) → Perm (range d) d) (w : W)
    (block_number : ℕ) where
  -- A report for all holders, in whatever order the messages came, with traders' balances that add
  -- up to their total, no wallet registered as its own delegate, a share-token balance for each
  -- address, share tokens that exist, holders that have no more of them than there are, a pool
  -- balance that can be read and covers the traders, and a `range` that runs through the whole map:
  -- it is returned without a panic; its amounts are together at most the pool's balance; and if the
  -- holders have all the share tokens, they fall short of it by at most one unit for each address.
  pub after_loop-PaysOut :
      (addrs : List Text) (bal : Dict Text ℤ) (tot : ℤ) (pairs : List (Text × Text)) (bals : List ℕ)
      (supply left : ℕ) (balance : ℤ) (d : Config)
      → Runs
          (start
            (trader_messages (ok (bal, tot)) (ok pairs))
            (lp_messages (ok (map pos bals, pos supply))))
          d
      → Final d.handler
      → total bal ≡ tot
      → All (λ p. p.0 ≢ p.1) pairs
      → length addrs ≡ length bals
      → 0 < supply
      → sum bals ≤ supply
      → balance -ℤ tot ≡ pos left
      → (pool_balance env app block_number w).0 ≡ ok balance
      → (r : Option (List (Balance F))) × ((after_loop env app float range addrs false block_number
            d.handler w).0
          ≡ ok r)
        × PaysOut env app float range runs w block_number r balance (sum bals) supply (length addrs)
  unfolding after_loop
  after_loop-PaysOut addrs bal tot pairs bals supply left balance d r f sums apart l h held covered
        e =
      let same : total (reassign pairs bal) ≡ tot = total-reassign pairs bal apart ∙ sums in
      let (out, made, pays) =
        finish_balances-PaysOut env app float range runs w block_number addrs bals supply left
          balance (reassign pairs bal) l h held (ap (λ t. balance -ℤ t) same ∙ covered) e in
      (
        out,
        ap (λ k. (after_loop env app float range addrs false block_number k w).0)
              (collected bal tot pairs (map pos bals) (pos supply) d r f)
            ∙ ap
                (λ t.
                  (finish_balances env app float range addrs false (map pos bals) (pos supply) t
                    (reassign pairs bal) block_number w).0)
                (sym same)
            ∙ made,
        pays,
      )
