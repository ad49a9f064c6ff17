-- ===== src/Etherfi/Shares.antt =====
-- The attribution of `attributeLpBalances` of internal/etherfi/etherfi.go.
pub mod Bounds
use d8x_etherfi.Base.{ℕ, List, [], ◌∷◌, map, if◌then◌else◌, Result, ok, err}
use d8x_etherfi.Base.Int.{ℤ, pos, eqb_ℤ, ◌-ℤ◌, ◌*ℤ◌, div}
use d8x_etherfi.Etherfi.App.{App}
use d8x_etherfi.Etherfi.Call.{M, ◌>>=◌, pure}
use d8x_etherfi.Etherfi.Queries.{Env, pool_balance}

-- One round of the loop: share-token balance / total supply * pool balance.
unfoldable pub share : ℤ → ℤ → ℤ → ℤ
share pool sh_tkn_total bal = if eqb_ℤ bal (pos 0) then pos 0 else div (bal *ℤ pool) sh_tkn_total

unfoldable pub shares : ℤ → ℤ → List ℤ → List ℤ
unfolding share
shares pool sh_tkn_total [] = []
shares pool sh_tkn_total (bal ∷ balcs) =
    share pool sh_tkn_total bal ∷ shares pool sh_tkn_total balcs

unfoldable pub attribute_lp_balances :
    {W Client Contract Caller Erc20 Manager F : Type 0}
    → Env W Client Contract Caller Erc20 Manager
    → App F
    → List ℤ
    → ℤ
    → ℤ
    → ℕ
    → M W (List ℤ)
attribute_lp_balances env app balcs sh_tkn_total trader_total block_number =
    if eqb_ℤ sh_tkn_total (pos 0)
    then pure []
    else pool_balance env app block_number >>= λ balance.
        pure (shares (balance -ℤ trader_total) sh_tkn_total balcs)
