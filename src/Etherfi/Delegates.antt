-- ===== src/Etherfi/Delegates.antt =====
-- `reassignTraderBalances` of internal/etherfi/etherfi.go. The two slices of the database query,
-- which it fills together, are one list of pairs.
pub mod Moves
use d8x_etherfi.Base.{List, [], ◌∷◌, Text, Option, none, some, text_eq, Result, ok, err}
use d8x_etherfi.Base.Int.{ℤ, pos, ◌+ℤ◌}
use d8x_etherfi.Base.Dict.{Dict, lookup, insert}

-- One pair of a strategy wallet and its delegate.
unfoldable pub reassign_one : Text × Text → Dict Text ℤ → Dict Text ℤ
reassign_one (addr, d) bal = elim (lookup addr bal) [
  | none ↦ bal
  | some v ↦ insert addr (pos 0) (insert d (elim (lookup d bal) [ none ↦ v | some u ↦ u +ℤ v ]) bal)
]

unfoldable pub reassign : List (Text × Text) → Dict Text ℤ → Dict Text ℤ
unfolding reassign_one
reassign [] bal = bal
reassign (p ∷ ps) bal = reassign ps (reassign_one p bal)

-- `found` is what `DbFindStrategyDelegates` returns.
unfoldable pub reassign_trader_balances :
    Result (List (Text × Text)) → Dict Text ℤ → Result (Dict Text ℤ)
unfolding reassign
reassign_trader_balances (err e) bal = err e
reassign_trader_balances (ok pairs) bal = ok (reassign pairs bal)
