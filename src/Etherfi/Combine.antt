-- ===== src/Etherfi/Combine.antt =====
-- `combineBalances` of internal/etherfi/etherfi.go, and the types of internal/utils/utils.go that
-- it fills.
pub mod Conserved
pub mod Exact
use d8x_etherfi.Base.{
  ℕ, List, [], ◌∷◌, ◌++◌, Text, Option, none, some, text_eq, Bool, true, false, if◌then◌else◌, map,
  not,
}
use d8x_etherfi.Base.Int.{ℤ, pos, ◌+ℤ◌, eqb_ℤ}
use d8x_etherfi.Base.Dict.{Dict, lookup, insert}

-- `float64` as far as `combineBalances` goes: the constant 0 and the SDK's `DecNToFloat`.
pub record Float (F : Type 0) : Type 0 where
  pub zero : F
  pub dec_n_to_float : ℤ → ℕ → F

pub record Balance (F : Type 0) : Type 0 where
  pub address : Text
  pub eff_balance : F

-- The balance of an address: its part as a provider, and what it has as a trader.
abbrev pub with_trader : Text → ℤ → Dict Text ℤ → ℤ
with_trader addr lp trader_bal = elim (lookup addr trader_bal) [ none ↦ lp | some t ↦ lp +ℤ t ]

-- The traders once that is counted: `traderBal[addr] = 0` if there is such a trader.
abbrev pub zeroed : Text → Dict Text ℤ → Dict Text ℤ
zeroed addr trader_bal = elim (lookup addr trader_bal) [
  | none ↦ trader_bal
  | some t ↦ insert addr (pos 0) trader_bal
]

module _ {F : Type 0} (float : Float F) (dec_n : ℕ) where
  abbrev pub balance : Text → F → Balance F
  balance addr f = record { address = addr; eff_balance = f }

  abbrev pub reported : Text → ℤ → Balance F
  reported addr bal = balance addr (float.dec_n_to_float bal dec_n)

  -- What one round of the loop over the addresses appends.
  abbrev pub entry : Bool → Text → ℤ → List (Balance F)
  entry exact addr bal =
      if eqb_ℤ bal (pos 0)
      then (if exact then balance addr float.zero ∷ [] else [])
      else reported addr bal ∷ []

  -- The loop over the addresses: the list that it appends and the traders that it leaves. `none` is
  -- a panic: `lpBal[k]` is read past the end.
  unfoldable pub addr_loop :
      Bool → List Text → List ℤ → Dict Text ℤ → Option (List (Balance F) × Dict Text ℤ)
  addr_loop exact [] lp_bal trader_bal = some ([], trader_bal)
  addr_loop exact (addr ∷ addrs) [] trader_bal = none
  addr_loop exact (addr ∷ addrs) (lp ∷ lp_bal) trader_bal =
      elim (addr_loop exact addrs lp_bal (zeroed addr trader_bal)) [
        | none ↦ none
        | some (balances, rest) ↦
            some (entry exact addr (with_trader addr lp trader_bal) ++ balances, rest)
      ]

  -- The loop over the traders that are left, in the order of the map's `range`.
  unfoldable pub trader_loop : List (Text × ℤ) → List (Balance F)
  trader_loop [] = []
  trader_loop ((addr, bal) ∷ rest) =
      if eqb_ℤ bal (pos 0) then trader_loop rest else reported addr bal ∷ trader_loop rest

  -- `range` is the order in which Go runs through a map.
  unfoldable pub combine_balances :
      (Dict Text ℤ → List (Text × ℤ))
      → List Text
      → Bool
      → List ℤ
      → Dict Text ℤ
      → Option (List (Balance F))
  unfolding addr_loop trader_loop
  combine_balances range addrs exact_addr lp_bal trader_bal =
      elim (addr_loop exact_addr addrs lp_bal trader_bal) [
        | none ↦ none
        | some (balances, left) ↦
            some (if exact_addr then balances else balances ++ trader_loop (range left))
      ]
