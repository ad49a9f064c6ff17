-- ===== src/Etherfi/Balances.antt =====
-- `Balances` of internal/etherfi/etherfi.go: two goroutines send what they find over unbuffered
-- channels, the handler takes two messages, and then puts the balances together.
pub mod Messages
pub mod Paid
pub mod Whole
pub mod Settled
pub mod Read
use d8x_etherfi.Base.{
  ℕ, zero, suc, ◌≡◌, List, [], ◌∷◌, ◌++◌, Option, none, some, Text, Result, ok, err, Error, Bool,
  true, false, not, if◌then◌else◌, eqb, length,
}
use d8x_etherfi.Base.Int.{ℤ, pos, eqb_ℤ}
use d8x_etherfi.Base.Dict.{Dict}
use d8x_etherfi.Etherfi.App.{App}
use d8x_etherfi.Etherfi.Call.{M, ◌>>=◌, pure, lift}
use d8x_etherfi.Etherfi.Queries.{Env, pool_balance}
use d8x_etherfi.Etherfi.Delegates.{reassign_trader_balances}
use d8x_etherfi.Etherfi.Shares.{attribute_lp_balances}
use d8x_etherfi.Etherfi.Combine.{Float, Balance, combine_balances}

-- `TraderChan` and `LpChan`; a total is `none` where the code sends a nil pointer.
pub record TraderChan : Type 0 where
  pub trader_bal : Dict Text ℤ
  pub total : Option ℤ

pub record LpChan : Type 0 where
  pub sh_tkn_bal : List ℤ
  pub sh_tkn_total : Option ℤ

pub data Message : Type 0 where
  trader_message : TraderChan → Message
  lp_message : LpChan → Message
  err_message : Error → Message

-- What the first goroutine sends, in order: it does not return after an error. `queried` is the
-- result of `QueryTraderBalances`, and `found` that of `DbFindStrategyDelegates`.
abbrev pub reassigned : Result (List (Text × Text)) → Dict Text ℤ → Option ℤ → List Message
reassigned found bal total = elim (reassign_trader_balances found bal) [
  | ok bal' ↦ trader_message (record { trader_bal = bal'; total = total }) ∷ []
  | err e ↦ err_message e ∷ trader_message (record { trader_bal = bal; total = total }) ∷ []
]

unfoldable pub trader_messages :
    Result (Dict Text ℤ × ℤ) → Result (List (Text × Text)) → List Message
trader_messages (ok (bal, total)) found = reassigned found bal (some total)
trader_messages (err e) found = err_message e ∷ reassigned found [] none

-- What the second goroutine sends, with the result of `QueryLpBalances`.
unfoldable pub lp_messages : Result (List ℤ × ℤ) → List Message
lp_messages (ok (balcs, total)) =
    lp_message (record { sh_tkn_bal = balcs; sh_tkn_total = some total }) ∷ []
lp_messages (err e) =
    err_message e ∷ lp_message (record { sh_tkn_bal = []; sh_tkn_total = none }) ∷ []

-- The handler in its loop, with the rounds left and the variables `t` and `lp`; or returned.
pub data Handler : Type 0 where
  receiving : ℕ → TraderChan → LpChan → Handler
  returned : Error → Handler

unfoldable pub receive : Message → ℕ → TraderChan → LpChan → Handler
receive (trader_message t') k t lp = receiving k t' lp
receive (lp_message lp') k t lp = receiving k t lp'
receive (err_message e) k t lp = returned e

abbrev pub no_traders : TraderChan
no_traders = record { trader_bal = []; total = none }

abbrev pub no_lps : LpChan
no_lps = record { sh_tkn_bal = []; sh_tkn_total = none }

-- The messages that each goroutine still has to send, and the handler.
pub record Config : Type 0 where
  pub traders : List Message
  pub lps : List Message
  pub handler : Handler

-- `select` takes the next message of either goroutine.
pub data Step : Config → Config → Type 0 where
  from_traders :
      (m : Message) (ms ls : List Message) (k : ℕ) (t : TraderChan) (lp : LpChan)
      → Step
          (record { traders = m ∷ ms; lps = ls; handler = receiving (suc k) t lp })
          (record { traders = ms; lps = ls; handler = receive m k t lp })
  from_lps :
      (m : Message) (ms ls : List Message) (k : ℕ) (t : TraderChan) (lp : LpChan)
      → Step
          (record { traders = ms; lps = m ∷ ls; handler = receiving (suc k) t lp })
          (record { traders = ms; lps = ls; handler = receive m k t lp })

pub data Runs : Config → Config → Type 0 where
  here : (c : Config) → Runs c c
  next : {c c' d : Config} → Step c c' → Runs c' d → Runs c d

abbrev pub start : List Message → List Message → Config
start ts ls = record { traders = ts; lps = ls; handler = receiving 2 no_traders no_lps }

module _ {W Client Contract Caller Erc20 Manager F : Type 0}
    (env : Env W Client Contract Caller Erc20 Manager) (app : App F) (float : Float F)
    (range : Dict Text ℤ → List (Text × ℤ)) where
  -- What follows the loop. `none` inside is a panic.
  unfoldable pub finish_balances :
      List Text → Bool → List ℤ → ℤ → ℤ → Dict Text ℤ → ℕ → M W (Option (List (Balance F)))
  finish_balances addrs exact_addr sh_tkn_bal sh_tkn_total trader_total trader_bal block_number = do
    lp_bal ← attribute_lp_balances env app sh_tkn_bal sh_tkn_total trader_total block_number
    pure (combine_balances float app.pool_tkn_decimals range addrs exact_addr lp_bal trader_bal)

  -- What `Balances` returns once the handler is through. A nil total is a panic where it is used: that
  -- of the share tokens at once, and that of the traders behind the query for the pool's balance, so
  -- it is not used where there are no share tokens.
  unfoldable pub after_loop : List Text → Bool → ℕ → Handler → M W (Option (List (Balance F)))
  unfolding finish_balances
  after_loop addrs exact_addr block_number (returned e) = lift (err e)
  after_loop addrs exact_addr block_number (receiving k t lp) = elim lp.sh_tkn_total [
    | none ↦ pure none
    | some sh_tkn_total ↦ elim t.total [
      | none ↦
          if eqb_ℤ sh_tkn_total (pos 0)
          then finish_balances addrs exact_addr lp.sh_tkn_bal sh_tkn_total (pos 0) t.trader_bal
              block_number
          else (pool_balance env app block_number >>= λ balance. pure none)
      | some trader_total ↦
          finish_balances addrs exact_addr lp.sh_tkn_bal sh_tkn_total trader_total t.trader_bal
            block_number
    ]
  ]
