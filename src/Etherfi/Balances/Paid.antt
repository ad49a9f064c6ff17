-- ===== src/Etherfi/Balances/Paid.antt =====
-- What a report for all holders pays out, against what the pool holds.
use d8x_etherfi.Base.{
  ℕ, ◌≤◌, ◌<◌, ◌≡◌, refl, ap, sym, ◌∙◌, List, map, Option, some, Text, ok, false, length,
  length-map, arith,
}
use mathlib.Core.List.{Perm}
use d8x_etherfi.Base.Int.{ℤ, pos, ◌+ℤ◌, ◌-ℤ◌, ◌≤ℤ◌, eqb_ℤ, int_laws, parts_of_eq}
use d8x_etherfi.Base.Dict.{Dict, total}
use d8x_etherfi.Etherfi.App.{App}
use d8x_etherfi.Etherfi.Call.{>>=-ok, pure}
use d8x_etherfi.Etherfi.Queries.{Env, pool_balance}
use d8x_etherfi.Etherfi.Shares.{shares, attribute_lp_balances}
use d8x_etherfi.Etherfi.Shares.Bounds.{sum, sum_ℤ, shares_bounds, length-shares}
use d8x_etherfi.Etherfi.Combine.{Float, Balance, combine_balances}
use d8x_etherfi.Etherfi.Combine.Conserved.{Amounts, report, combine_balances-Stands}
use d8x_etherfi.Etherfi.Balances.{finish_balances}

module _ {W Client Contract Caller Erc20 Manager F : Type 0}
    (env : Env W Client Contract Caller Erc20 Manager) (app : App F) (float : Float F)
    (range : Dict Text ℤ → List (Text × ℤ)) (runs : (d : Dict Text ℤ) → Perm (range d) d) (w : W)
    (block_number : ℕ) where
  -- The providers' parts once the pool's balance is known.
  attribute_lp_balances-ok :
      (balcs : List ℤ) (supply : ℕ) (traders balance : ℤ)
      → 0 < supply
      → (pool_balance env app block_number w).0 ≡ ok balance
      → (attribute_lp_balances env app balcs (pos supply) traders block_number w).0
        ≡ ok (shares (balance -ℤ traders) (pos supply) balcs)
  unfolding attribute_lp_balances
  attribute_lp_balances-ok balcs supply traders balance h e =
      let nonzero : eqb_ℤ (pos supply) (pos 0) ≡ false = ground arith in
      rw (attribute_lp_balances, nonzero)
        (>>=-ok (pool_balance env app block_number)
          (λ b. pure (shares (b -ℤ traders) (pos supply) balcs)) w e)

  -- The amounts of a report, with the pool's balance and the number of the addresses.
  abbrev pub PaysOut : Option (List (Balance F)) → ℤ → ℕ → ℕ → ℕ → Type 0
  PaysOut reported balance held supply n =
      (out : List (Balance F)) × (xs : Amounts) × (reported ≡ some out)
      × (out ≡ map (report float app.pool_tkn_decimals) xs)
      × (total xs ≤ℤ balance)
      × (held ≡ supply → balance ≤ℤ total xs +ℤ pos n)

  -- The report for all holders, from a share-token balance for each address and the balances of
  -- the traders, with share tokens that exist, holders that have no more of them than there are, a
  -- pool balance that can be read and covers the traders, and a `range` that runs through the
  -- whole map: it is returned without a panic; its amounts are together at most the pool's
  -- balance; and if the holders have all the share tokens, they fall short of it by at most one
  -- unit for each address.
  pub finish_balances-PaysOut :
      (addrs : List Text) (bals : List ℕ) (supply left : ℕ) (balance : ℤ) (traders : Dict Text ℤ)
      → length addrs ≡ length bals
      → 0 < supply
      → sum bals ≤ supply
      → balance -ℤ total traders ≡ pos left
      → (pool_balance env app block_number w).0 ≡ ok balance
      → (r : Option (List (Balance F))) × ((finish_balances env app float range addrs false
            (map pos bals)
            (pos supply)
            (total traders)
            traders
            block_number
            w).0
          ≡ ok r)
        × PaysOut r balance (sum bals) supply (length addrs)
  unfolding finish_balances
  finish_balances-PaysOut addrs bals supply left balance traders l h held covered e =
      let lps = shares (balance -ℤ total traders) (pos supply) (map pos bals) in
      let count : length addrs ≡ length lps =
        l ∙ sym (length-map pos bals) ∙ sym (length-shares _ _ (map pos bals)) in
      let (out, made, (xs, stands, sums)) =
        combine_balances-Stands float app.pool_tkn_decimals range addrs lps traders runs count in
      let parts = ap (λ p. sum_ℤ (shares p (pos supply) (map pos bals))) covered in
      let (low, high) = shares_bounds left supply bals h held in
      (
        some out,
        >>=-ok
              (attribute_lp_balances env app (map pos bals) (pos supply) (total traders)
                block_number)
              (λ lp_bal.
                pure
                  (combine_balances float app.pool_tkn_decimals range addrs false lp_bal traders))
              w (attribute_lp_balances-ok (map pos bals) supply (total traders) balance h e)
            ∙ ap ok made,
        (
          out,
          xs,
          refl,
          stands,
          omega (int_laws, parts_of_eq sums, parts_of_eq parts, parts_of_eq covered),
          λ all.
              omega (int_laws, high all, parts_of_eq sums, parts_of_eq parts, parts_of_eq covered),
        ),
      )
