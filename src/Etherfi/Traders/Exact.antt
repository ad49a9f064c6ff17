-- ===== src/Etherfi/Traders/Exact.antt =====
-- `QueryTraderBalances` over nodes that agree on the accounts and their cash at a block.
use d8x_etherfi.Base.{
  ◌≤◌, ◌≡◌, refl, ap, sym, ◌∙◌, ◌⊎◌, inl, inr, Result, ok, err, Result-cases, Bool-cases, List, [],
  ◌∷◌, ◌++◌, map, Text, text_eq, length, length-append, length-map, Option, none, some, arith,
  string_eq,
}
use mathlib.Core.Path.{subst, subst₂}
use mathlib.Core.List.{append_assoc, append-nil}
use text.Mathlib.Text.{◌==◌ as str_eq}
use d8x_etherfi.Base.Int.{ℤ, pos, int_laws}
use d8x_etherfi.Base.Dict.{Dict, balance_of, total}
use d8x_etherfi.Chain.{Address}
use d8x_etherfi.Etherfi.App.{App}
use d8x_etherfi.Etherfi.Call.{>>=-all}
use d8x_etherfi.Etherfi.Retry.{no_contract_code}
use d8x_etherfi.Etherfi.Queries.{Env, query_active_addr, query_avail_cash}
use d8x_etherfi.Etherfi.Queries.Accounts.{
  Ledger, NodeFails, OrFails, cash_of_account, query_active_addr-OrFails, query_avail_cash-OrFails,
}
use d8x_etherfi.Etherfi.Traders.{collect, gather, organize, address_key, query_trader_balances}
use d8x_etherfi.Etherfi.Traders.Cash.{
  cash_of, cash_sum, collect_total, collect_sum, collect_balance, collect_tot,
}

module _ {W Client Contract Caller Erc20 Manager F : Type 0}
    (env : Env W Client Contract Caller Erc20 Manager) (app : App F) (block : Option ℤ)
    (ledger : Ledger env app block) where
  -- The accounts of all perpetuals, and their cash.
  abbrev pub all_accounts : List ℤ → List Address
  all_accounts [] = []
  all_accounts (id ∷ ids) = ledger.accounts id ++ all_accounts ids

  abbrev pub all_cash : List ℤ → List ℤ
  all_cash [] = []
  all_cash (id ∷ ids) =
      map (cash_of_account env app block ledger id) (ledger.accounts id) ++ all_cash ids

  length-all_cash : (ids : List ℤ) → length (all_accounts ids) ≤ length (all_cash ids)
  length-all_cash [] = omega arith
  length-all_cash (id ∷ ids) =
      let paid = cash_of_account env app block ledger id in
      let accounts = ledger.accounts id in
      omega (
        arith,
        length-append accounts (all_accounts ids),
        length-append (map paid accounts) (all_cash ids),
        length-map paid accounts,
        length-all_cash ids,
      )

  -- The loop over the perpetuals gathers everything, or stops at a contract that is not there yet,
  -- or at the error of a node.
  abbrev Gathered : List Address → List ℤ → Result (Option (List Address × List ℤ)) → Type 0
  Gathered ts cs (ok none) = NodeFails env app block no_contract_code
  Gathered ts cs (ok (some (a, b))) = (a ≡ ts) × (b ≡ cs)
  Gathered ts cs (err e) = NodeFails env app block e

  gather-Gathered :
      (ids : List ℤ) (ts : List Address) (cs : List ℤ) (w : W)
      → Gathered (ts ++ all_accounts ids) (cs ++ all_cash ids) (gather env app block ids ts cs w).0
  unfolding gather
  gather-Gathered [] ts cs w = (sym (append-nil ts), sym (append-nil cs))
  gather-Gathered (id ∷ ids) ts cs w =
      let (r, v) = query_active_addr env app block id w in
      let accounts = ledger.accounts id in
      let amounts = map (cash_of_account env app block ledger id) accounts in
      let answered = query_avail_cash-OrFails env app block ledger id accounts in
      let found : OrFails env app block (ledger.accounts id) r =
        query_active_addr-OrFails env app block ledger id w in
      elim (Result-cases r) [
        | inr (e, q) ↦
            let fails : NodeFails env app block e =
              subst (OrFails env app block (ledger.accounts id)) q found in
            elim (Bool-cases (str_eq e no_contract_code)) [
              | inl s ↦
                  rw (gather, q, s)
                    (subst (NodeFails env app block) ((string_eq.beq_iff e no_contract_code).0 s)
                      fails)
              | inr s ↦ rw (gather, q, s) fails
            ]
        | inl (traders, q) ↦
            let are : traders ≡ ledger.accounts id =
              subst (OrFails env app block (ledger.accounts id)) q found in
            rw (gather, q, are)
              (>>=-all (query_avail_cash env app block id (ledger.accounts id))
                (λ cash. gather env app block ids (ts ++ ledger.accounts id) (cs ++ cash)) v
                (Gathered (ts ++ all_accounts (id ∷ ids)) (cs ++ all_cash (id ∷ ids)))
                (λ cash e.
                  let paid : cash ≡ amounts =
                    subst (OrFails env app block amounts) e (answered v) in
                  let rest =
                    gather-Gathered ids (ts ++ accounts) (cs ++ cash)
                      (query_avail_cash env app block id accounts v).1 in
                  subst₂
                    (λ us ds.
                      Gathered us ds
                        (gather env app block ids (ts ++ accounts) (cs ++ cash)
                          (query_avail_cash env app block id accounts v).1).0)
                    (append_assoc ts accounts (all_accounts ids))
                    (append_assoc cs cash (all_cash ids)
                      ∙ ap (λ ds. cs ++ (ds ++ all_cash ids)) paid)
                    rest)
                (λ e q. subst (OrFails env app block amounts) q (answered v)))
      ]

  abbrev pub proxy_key : Text
  proxy_key = address_key env app app.perp_proxy

  -- The cash of all owners together.
  abbrev pub traders_cash : ℤ
  traders_cash =
      cash_sum (address_key env app) proxy_key (all_accounts app.perp_ids) (all_cash app.perp_ids)

  -- What is returned: for each owner the cash of the owner's accounts, and the sum; or nothing and 0,
  -- for a contract that is not there yet; or the error of a node. A panic is excluded.
  abbrev pub TraderAnswer : Result (Option (Dict Text ℤ × ℤ)) → Type 0
  TraderAnswer (ok none) = ⊥
  TraderAnswer (ok (some (bal, tot))) =
      (((a : Text)
          → balance_of a bal
            ≡ cash_of (address_key env app) proxy_key a (all_accounts app.perp_ids)
                (all_cash app.perp_ids))
        × (total bal ≡ tot)
        × (tot ≡ traders_cash))
      ⊎ ((bal ≡ []) × (tot ≡ pos 0) × NodeFails env app block no_contract_code)
  TraderAnswer (err e) = NodeFails env app block e

  collected-TraderAnswer : TraderAnswer (
      ok (
        collect
          (address_key env app)
          proxy_key
          (all_accounts app.perp_ids)
          (all_cash app.perp_ids)
          []
          (pos 0)))
  collected-TraderAnswer =
      let ts = all_accounts app.perp_ids in
      let cs = all_cash app.perp_ids in
      let ((bal, tot), e) =
        collect_total (address_key env app) proxy_key ts cs [] (pos 0)
          (length-all_cash app.perp_ids) in
      subst (λ o. TraderAnswer (ok o)) (sym e)
        (inl (
          (λ a. collect_balance (address_key env app) proxy_key a ts cs e),
          collect_sum (address_key env app) proxy_key ts cs [] (pos 0) refl e,
          collect_tot (address_key env app) proxy_key ts cs [] (pos 0) e ∙ omega int_laws,
        ))

  organize-TraderAnswer :
      (found : Option (List Address × List ℤ)) (w : W)
      → Gathered (all_accounts app.perp_ids) (all_cash app.perp_ids) (ok found)
      → TraderAnswer (organize env app found w).0
  unfolding organize
  organize-TraderAnswer none w h = inr (refl, refl, h)
  organize-TraderAnswer (some (ts, cs)) w (t, c) =
      subst₂ (λ us ds. TraderAnswer (ok (collect (address_key env app) proxy_key us ds [] (pos 0))))
        (sym t) (sym c) collected-TraderAnswer

  -- Over nodes that agree on the accounts of the perpetuals and on their cash at the block, the query
  -- returns for each owner the sum of the cash of the owner's accounts, in the decimals of the token
  -- and without the manager's own, and the sum of these; or no balance and 0 if a node says that
  -- there is no contract; or the error of a node. It does not panic.
  pub query_trader_balances-TraderAnswer :
      (w : W) → TraderAnswer (query_trader_balances env app block w).0
  unfolding query_trader_balances
  query_trader_balances-TraderAnswer w =
      let gathered = gather-Gathered app.perp_ids [] [] w in
      let IsGathered = Gathered (all_accounts app.perp_ids) (all_cash app.perp_ids) in
      >>=-all (gather env app block app.perp_ids [] []) (organize env app) w TraderAnswer
        (λ found q. organize-TraderAnswer found _ (subst IsGathered q gathered))
        (λ e q. subst IsGathered q gathered)
