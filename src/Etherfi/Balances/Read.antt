-- ===== src/Etherfi/Balances/Read.antt =====
-- What follows the loop of `Balances`, by what the query of the pool's balance returns.
use d8x_etherfi.Base.{ℕ, ◌≡◌, List, Option, Text, ok, err, Error, Bool, false}
use d8x_etherfi.Base.Int.{ℤ, pos, ◌-ℤ◌, eqb_ℤ}
use d8x_etherfi.Base.Dict.{Dict}
use d8x_etherfi.Etherfi.App.{App}
use d8x_etherfi.Etherfi.Call.{M, ◌>>=◌, pure, >>=-ok, >>=-err}
use d8x_etherfi.Etherfi.Queries.{Env, pool_balance}
use d8x_etherfi.Etherfi.Shares.{shares, attribute_lp_balances}
use d8x_etherfi.Etherfi.Combine.{Float, Balance, combine_balances}
use d8x_etherfi.Etherfi.Balances.{finish_balances}

module _ {W Client Contract Caller Erc20 Manager F : Type 0}
    (env : Env W Client Contract Caller Erc20 Manager) (app : App F) (float : Float F)
    (range : Dict Text ℤ → List (Text × ℤ)) (n : ℕ) (addrs : List Text) (exact : Bool)
    (balcs : List ℤ) (supply tot : ℤ) (traders : Dict Text ℤ) (w : W)
    (nonzero : eqb_ℤ supply (pos 0) ≡ false) where
  abbrev read : M W ℤ
  read = pool_balance env app n

  abbrev divide : ℤ → M W (List ℤ)
  divide b = pure (shares (b -ℤ tot) supply balcs)

  abbrev combine : List ℤ → M W (Option (List (Balance F)))
  combine lp_bal =
      pure (combine_balances float app.pool_tkn_decimals range addrs exact lp_bal traders)

  -- A pool balance that cannot be read fails the request.
  pub finish_balances-err :
      {e : Error}
      → (pool_balance env app n w).0 ≡ err e
      → (finish_balances env app float range addrs exact balcs supply tot traders n w).0 ≡ err e
  unfolding finish_balances attribute_lp_balances
  finish_balances-err q =
      rw (finish_balances, attribute_lp_balances, nonzero)
        (>>=-err (read >>= divide) combine w (>>=-err read divide w q))

  -- One that can be is divided, less the traders' total, and combined.
  pub finish_balances-ok :
      {b : ℤ}
      → (pool_balance env app n w).0 ≡ ok b
      → (finish_balances env app float range addrs exact balcs supply tot traders n w).0
        ≡ ok (
            combine_balances float app.pool_tkn_decimals range addrs exact
              (shares (b -ℤ tot) supply balcs)
              traders)
  unfolding finish_balances attribute_lp_balances
  finish_balances-ok q =
      rw (finish_balances, attribute_lp_balances, nonzero)
        (>>=-ok (read >>= divide) combine w (>>=-ok read divide w q))
