-- ===== src/Etherfi/Request.antt =====
-- `Balances` of internal/etherfi/etherfi.go as a whole: the addresses, the queries of the two
-- goroutines, the messages, and the answer. The queries run one after the other, and side by side in
-- Interleaved; the order of the messages is open.
pub mod Sound
pub mod Told
pub mod Interleaved
use d8x_etherfi.Base.{
  ℕ, ◌≡◌, List, [], ◌∷◌, Option, none, some, Text, Result, ok, err, Error, Bool, true, false,
  if◌then◌else◌, eqb, length, not,
}
use d8x_etherfi.Base.Int.{ℤ, pos}
use d8x_etherfi.Base.Dict.{Dict}
use d8x_etherfi.Utils.Payload.{Payload}
use d8x_etherfi.Etherfi.App.{App}
use d8x_etherfi.Etherfi.Call.{M, ◌>>=◌, pure, lift}
use d8x_etherfi.Etherfi.Queries.{Env, block_arg, query_lp_balances}
use d8x_etherfi.Etherfi.Traders.{query_trader_balances}
use d8x_etherfi.Etherfi.Combine.{Float, Balance}
use d8x_etherfi.Etherfi.Store.{Db, db_get_share_token_holders, db_find_strategy_delegates}
use d8x_etherfi.Etherfi.Balances.{
  Message, Handler, Config, Runs, start, trader_messages, lp_messages, after_loop,
}
use d8x_etherfi.Etherfi.Balances.Messages.{Final}

-- Go's choice of the order in which the messages of the two goroutines are taken: how its loop ends.
abbrev pub Select : Type 0
Select = List Message → List Message → Handler

-- Whatever the goroutines have to send, the choice is the end of a run.
abbrev pub IsFair : Select → Type 0
IsFair select =
    (queried : Result (Dict Text ℤ × ℤ)) (found : Result (List (Text × Text)))
    (lps : Result (List ℤ × ℤ))
    → (d : Config) × Runs (start (trader_messages queried found) (lp_messages lps)) d
      × Final d.handler
      × (select (trader_messages queried found) (lp_messages lps) ≡ d.handler)

-- The errors of the two queries to the database.
pub record DbAnswers : Type 0 where
  pub holders_failure : Option Error
  pub delegates_failure : Option Error

module _ {W Client Contract Caller Erc20 Manager F : Type 0}
    (env : Env W Client Contract Caller Erc20 Manager) (app : App F) (db : Db) (float : Float F)
    (range : Dict Text ℤ → List (Text × ℤ)) (select : Select) (answers : DbAnswers) where
  -- The addresses of the request, or all holders if there are none.
  unfoldable pub requested_addrs : Payload → Result (List Text)
  requested_addrs req =
      if eqb (length req.addresses) 0
      then db_get_share_token_holders app db answers.holders_failure req.block_number
      else ok req.addresses

  -- What follows the query of the traders. `none` is the panic of its goroutine.
  unfoldable pub with_traders :
      Payload
      → List Text
      → Result (List ℤ × ℤ)
      → Result (Option (Dict Text ℤ × ℤ))
      → M W (Option (List (Balance F)))
  unfolding after_loop
  with_traders req addrs lps (ok none) = pure none
  with_traders req addrs lps (ok (some found)) =
      after_loop env app float range addrs (not (eqb (length req.addresses) 0)) req.block_number (
        select
          (trader_messages (ok found)
            (db_find_strategy_delegates app db answers.delegates_failure req.block_number))
          (lp_messages lps))
  with_traders req addrs lps (err e) =
      after_loop env app float range addrs (not (eqb (length req.addresses) 0)) req.block_number (
        select
          (trader_messages (err e)
            (db_find_strategy_delegates app db answers.delegates_failure req.block_number))
          (lp_messages lps))

  unfoldable pub balances : Payload → M W (Option (List (Balance F)))
  unfolding requested_addrs with_traders
  balances req = do
    addrs ← lift (requested_addrs req)
    λ w.
        let (queried, w') = query_trader_balances env app (some (block_arg req.block_number)) w in
        let (lps, w'') = query_lp_balances env app addrs req.block_number w' in
        with_traders req addrs lps queried w''
