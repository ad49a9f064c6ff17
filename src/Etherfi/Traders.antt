-- ===== src/Etherfi/Traders.antt =====
-- `QueryTraderBalances` of internal/etherfi/evm.go: the cash of every active account, by owner.
pub mod Cash
pub mod Exact
use d8x_etherfi.Base.{
  ℕ, ◌≡◌, Result, ok, err, Error, List, [], ◌∷◌, map, if◌then◌else◌, String, Bool, true, false,
  Text, text_beq, Option, none, some, ◌++◌, text_eq,
}
use d8x_etherfi.Base.Int.{ℤ, pos, ◌+ℤ◌}
use d8x_etherfi.Base.Dict.{Dict, lookup, insert}
use d8x_etherfi.Chain.{Address}
use d8x_etherfi.Utils.Address.{to_lower}
use d8x_etherfi.Etherfi.App.{App}
use d8x_etherfi.Etherfi.Call.{M, ◌>>=◌, pure}
use d8x_etherfi.Etherfi.Retry.{no_contract_code}
use d8x_etherfi.Etherfi.Queries.{Env, query_active_addr, query_avail_cash}
use text.Mathlib.Text.{◌==◌ as str_eq}

-- The map's update for one account.
abbrev pub add_cash : Text → ℤ → Dict Text ℤ → Dict Text ℤ
add_cash addr cash bal =
    insert addr (elim (lookup addr bal) [ none ↦ cash | some v ↦ v +ℤ cash ]) bal

module _ (key : Address → Text) (proxy : Text) where
  -- The loop that re-organizes the data, from the map and the total so far. `none` is a panic:
  -- `allCash[k]` is read and there are fewer amounts than traders.
  unfoldable pub collect : List Address → List ℤ → Dict Text ℤ → ℤ → Option (Dict Text ℤ × ℤ)
  collect [] cash bal tot = some (bal, tot)
  collect (t ∷ ts) [] bal tot = elim (text_beq (key t) proxy) [
    | true ↦ collect ts [] bal tot
    | false ↦ none
  ]
  collect (t ∷ ts) (c ∷ cash) bal tot = elim (text_beq (key t) proxy) [
    | true ↦ collect ts cash bal tot
    | false ↦ collect ts cash (add_cash (key t) c bal) (tot +ℤ c)
  ]

module _ {W Client Contract Caller Erc20 Manager F : Type 0}
    (env : Env W Client Contract Caller Erc20 Manager) (app : App F) where
  -- The loop over the perpetuals. `none` is the early return for a contract that does not exist yet.
  unfoldable pub gather :
      Option ℤ → List ℤ → List Address → List ℤ → M W (Option (List Address × List ℤ))
  gather opts [] all_traders all_cash w = (ok (some (all_traders, all_cash)), w)
  gather opts (id ∷ ids) all_traders all_cash w =
      let (r, w') = query_active_addr env app opts id w in
      elim r [
        | err e ↦ if str_eq e no_contract_code then (ok none, w') else (err e, w')
        | ok traders ↦
            (query_avail_cash env app opts id traders >>= λ cash.
            gather opts ids (all_traders ++ traders) (all_cash ++ cash))
              w'
      ]

  -- strings.ToLower(trader.Hex())
  abbrev pub address_key : Address → Text
  address_key a = to_lower (env.geth.hex a)

  -- The re-organization of the data. `none` inside is the panic of `collect`.
  unfoldable pub organize : Option (List Address × List ℤ) → M W (Option (Dict Text ℤ × ℤ))
  unfolding collect
  organize none = pure (some ([], pos 0))
  organize (some (all_traders, all_cash)) =
      pure (collect address_key (address_key app.perp_proxy) all_traders all_cash [] (pos 0))

  -- The balances by owner and their total.
  unfoldable pub query_trader_balances : Option ℤ → M W (Option (Dict Text ℤ × ℤ))
  unfolding gather organize
  query_trader_balances block_number = gather block_number app.perp_ids [] [] >>= organize
