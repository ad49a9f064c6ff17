-- ===== src/Api/Serve.antt =====
-- The handlers of internal/api/handlers.go for balances from the request to the answer, with
-- `Balances` between its checks and `balanceResponse`.
pub mod Sound
pub mod Told
use d8x_etherfi.Base.{ℕ, List, Option, none, some, Text, Result, ok, err, Error}
use d8x_etherfi.Base.Int.{ℤ}
use d8x_etherfi.Base.Dict.{Dict}
use d8x_etherfi.Utils.Payload.{Payload}
use d8x_etherfi.Etherfi.App.{App}
use d8x_etherfi.Etherfi.Queries.{Env}
use d8x_etherfi.Etherfi.Combine.{Float, Balance}
use d8x_etherfi.Etherfi.Store.{Db}
use d8x_etherfi.Etherfi.Request.{Select, DbAnswers, balances}
use d8x_etherfi.Api.{
  Checked, accepted, rejected, Atoi, on_get_balances, on_balances, balance_response,
}

module _ {W Client Contract Caller Erc20 Manager F : Type 0}
    (env : Env W Client Contract Caller Erc20 Manager) (db : Db) (float : Float F)
    (range : Dict Text ℤ → List (Text × ℤ)) (select : Select) (answers : DbAnswers)
    (marshal : List (Balance F) → Result Text) where
  -- The answer, from the result of `Balances`. `none` is a panic.
  abbrev pub answered : Result (Option (List (Balance F))) → Option (Checked Text)
  answered (ok none) = none
  answered (ok (some res)) = some (balance_response marshal (ok res))
  answered (err e) = some (balance_response marshal (err e))

  -- What follows the checks.
  unfoldable pub serve : App F → Checked Payload → W → Option (Checked Text) × W
  unfolding balances
  serve app (rejected status message) w = (some (rejected status message), w)
  serve app (accepted req) w =
      let (res, w') = balances env app db float range select answers req w in (answered res, w')

  module _ (app : App F) (e₀ e₁ : Option Error) where
    -- `onGetBalances`, from the texts of the request; the app may have filled its cache.
    unfoldable pub get_balances : Atoi → Text → List Text → W → Option (Checked Text) × App F × W
    unfolding serve on_get_balances
    get_balances atoi block_req addrs w =
        let (checked, app') = on_get_balances app db e₀ e₁ atoi block_req addrs in
        let (res, w') = serve app' checked w in (res, app', w')

    -- `onBalances`, from what `json.Unmarshal` makes of the body.
    unfoldable pub post_balances : Result Payload → W → Option (Checked Text) × App F × W
    unfolding serve on_balances
    post_balances body w =
        let (checked, app') = on_balances app db e₀ e₁ body in
        let (res, w') = serve app' checked w in (res, app', w')
