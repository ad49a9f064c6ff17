-- ===== src/Etherfi/Request/Told.antt =====
-- A request for given addresses, over nodes that agree on the state at its block.
use d8x_etherfi.Base.{
  ℕ, ◌≤◌, ◌<◌, ◌≡◌, ◌≢◌, refl, ap, sym, ◌∙◌, inl, inr, List, map, Option, none, some, Text, Result,
  ok, err, Error, text_eq, Result-cases, Bool-cases, err_injective, true, false, length, length-map,
  arith, eqb,
}
use mathlib.Core.Path.{subst}
use d8x_etherfi.Base.Int.{ℤ, pos, ◌-ℤ◌, eqb_ℤ, eqb_ℤ_iff}
use d8x_etherfi.Base.Dict.{Dict, balance_of}
use d8x_etherfi.Etherfi.App.{App}
use d8x_etherfi.Etherfi.Retry.{no_contract_code}
use d8x_etherfi.Etherfi.Queries.{Env, block_arg, pool_balance, query_lp_balances}
use d8x_etherfi.Etherfi.Queries.Accounts.{Ledger, NodeFails}
use d8x_etherfi.Etherfi.Queries.Providers.{
  Reserves, TokenFails, LatestBalance, PoolRead, ProvidersAnswer, NodeError, pool_balance-PoolRead,
  query_lp_balances-ProvidersAnswer,
}
use d8x_etherfi.Etherfi.Traders.{address_key, query_trader_balances}
use d8x_etherfi.Etherfi.Traders.Cash.{cash_of}
use d8x_etherfi.Etherfi.Traders.Exact.{
  all_accounts, all_cash, proxy_key, traders_cash, TraderAnswer, query_trader_balances-TraderAnswer,
}
use d8x_etherfi.Etherfi.Delegates.{reassign}
use d8x_etherfi.Etherfi.Shares.{shares}
use d8x_etherfi.Etherfi.Shares.Bounds.{length-shares}
use d8x_etherfi.Etherfi.Combine.{Float, Balance}
use d8x_etherfi.Etherfi.Combine.Exact.{Distinct, lines, combine_balances-lines}
use d8x_etherfi.Etherfi.Store.{Db, db_find_strategy_delegates}
use d8x_etherfi.Etherfi.Balances.{
  Handler, trader_messages, lp_messages, after_loop, finish_balances,
}
use d8x_etherfi.Etherfi.Balances.Read.{finish_balances-ok, finish_balances-err}
use d8x_etherfi.Etherfi.Balances.Settled.{Settled, IsReturned, handler-Settled}
use d8x_etherfi.Etherfi.Request.{Select, IsFair, DbAnswers, requested_addrs, with_traders, balances}

module _ {W Client Contract Caller Erc20 Manager F : Type 0}
    (env : Env W Client Contract Caller Erc20 Manager) (app : App F) (float : Float F)
    (range : Dict Text ℤ → List (Text × ℤ)) (n : ℕ) (ledger : Ledger env app (some (block_arg n)))
    (reserves : Reserves env app n) where
  -- The contracts are there, and there are share tokens.
  pub record IsThere : Type 0 where
    pub accounts_there : NodeFails env app (some (block_arg n)) no_contract_code → ⊥
    pub tokens_there : TokenFails env app n no_contract_code → ⊥
    pub some_supply : reserves.supply ≢ pos 0

  -- The cash of an owner's accounts.
  abbrev pub cash_at : Text → ℤ
  cash_at a =
      cash_of (address_key env app) (proxy_key env app (some (block_arg n)) ledger) a
        (all_accounts env app (some (block_arg n)) ledger app.perp_ids)
        (all_cash env app (some (block_arg n)) ledger app.perp_ids)

  -- The addresses' parts of what is left of a balance of the pool without the traders' cash.
  abbrev pub parts : ℤ → List Text → List ℤ
  parts balance addrs =
      shares (balance -ℤ traders_cash env app (some (block_arg n)) ledger) reserves.supply
        (map (λ a. reserves.held (env.geth.hex_to_address a)) addrs)

  module _ (there : IsThere) (addrs : List Text) (distinct : Distinct addrs)
      (pairs : List (Text × Text)) where
    -- A line for each address, in order, with its part of a balance of the latest block and, after the re-assignment of a map that has
    -- the cash of every owner, its balance in the map; or the error of a node.
    abbrev pub Told : Result (Option (List (Balance F))) → Type 0
    Told (ok none) = ⊥
    Told (ok (some out)) =
        (balance : ℤ) × (bal : Dict Text ℤ) × LatestBalance env app balance
        × ((a : Text) → balance_of a bal ≡ cash_at a)
        × (out ≡ lines float app.pool_tkn_decimals addrs (parts balance addrs) (reassign pairs bal))
    Told (err e) = NodeError env app n e

    nonzero : eqb_ℤ reserves.supply (pos 0) ≡ false
    nonzero = elim (Bool-cases (eqb_ℤ reserves.supply (pos 0))) [
      | inl z ↦ absurd (there.some_supply ((eqb_ℤ_iff reserves.supply (pos 0)).0 z))
      | inr nz ↦ nz
    ]

    finish_balances-Told :
        (bal : Dict Text ℤ) (w : W)
        → ((a : Text) → balance_of a bal ≡ cash_at a)
        → Told
            (finish_balances env app float range addrs true
              (map (λ a. reserves.held (env.geth.hex_to_address a)) addrs)
              reserves.supply
              (traders_cash env app (some (block_arg n)) ledger)
              (reassign pairs bal)
              n
              w).0
    finish_balances-Told bal w cash =
        let balcs = map (λ a. reserves.held (env.geth.hex_to_address a)) addrs in
        let tot = traders_cash env app (some (block_arg n)) ledger in
        let read = pool_balance-PoolRead env app n w in
        let enough : (b : ℤ) → length addrs ≤ length (parts b addrs) = λ b. omega (
          arith,
          length-shares (b -ℤ tot) reserves.supply balcs,
          length-map (λ a. reserves.held (env.geth.hex_to_address a)) addrs,
        ) in
        elim (Result-cases (pool_balance env app n w).0) [
          | inl (b, q) ↦ elim (subst (PoolRead env app n) q read) [
            | inr (_, missing) ↦ absurd (there.tokens_there missing)
            | inl is ↦
                subst Told
                  (sym (
                    finish_balances-ok env app float range n addrs true balcs reserves.supply tot
                      (reassign pairs bal) w nonzero q
                    ∙ ap ok (
                        combine_balances-lines float app.pool_tkn_decimals range addrs
                          (parts b addrs) (reassign pairs bal) distinct (enough b))))
                  (b, bal, is, cash, refl)
          ]
          | inr (e, q) ↦
              subst Told
                (sym (
                  finish_balances-err env app float range n addrs true balcs reserves.supply tot
                    (reassign pairs bal) w nonzero q))
                (inr (inl (subst (PoolRead env app n) q read)))
        ]

    module _ (select : Select) (fair : IsFair select) where
      abbrev ended :
          Result (Dict Text ℤ × ℤ) → Result (List ℤ × ℤ) → W → Result (Option (List (Balance F)))
      ended queried lps w =
          (after_loop env app float range addrs true n
            (select (trader_messages queried (ok pairs)) (lp_messages lps)) w).0

      returned-Told :
          (queried : Result (Dict Text ℤ × ℤ)) (lps : Result (List ℤ × ℤ)) (w : W)
          → ((e : Error) → queried ≡ err e → NodeError env app n e)
          → ((e : Error) → lps ≡ err e → NodeError env app n e)
          → ((h : Handler) → Settled queried (ok pairs) lps h → IsReturned queried (ok pairs) lps h)
          → Told (ended queried lps w)
      unfolding after_loop
      returned-Told queried lps w of_queried of_lps bad =
          let (d, r, f, ends) = fair queried (ok pairs) lps in
          let (e, is, cause) = bad d.handler (handler-Settled queried (ok pairs) lps d r f) in
          subst (λ h. Told (after_loop env app float range addrs true n h w).0) (sym (ends ∙ is))
            (elim cause [ inl q ↦ of_queried e q | inr (inl q) ↦ cc | inr (inr q) ↦ of_lps e q ])

      both-Told :
          (bal : Dict Text ℤ) (w : W)
          → ((a : Text) → balance_of a bal ≡ cash_at a)
          → Told (
              ended
                (ok (bal, traders_cash env app (some (block_arg n)) ledger))
                (ok (map (λ a. reserves.held (env.geth.hex_to_address a)) addrs, reserves.supply))
                w)
      unfolding after_loop
      both-Told bal w cash =
          let queried : Result (Dict Text ℤ × ℤ) =
            ok (bal, traders_cash env app (some (block_arg n)) ledger) in
          let lps : Result (List ℤ × ℤ) =
            ok (map (λ a. reserves.held (env.geth.hex_to_address a)) addrs, reserves.supply) in
          let (d, r, f, ends) = fair queried (ok pairs) lps in
          subst (λ h. Told (after_loop env app float range addrs true n h w).0)
            (sym (ends ∙ handler-Settled queried (ok pairs) lps d r f))
            (finish_balances-Told bal w cash)

      pub with_traders-Told :
          (db : Db) (answers : DbAnswers) (lps : Result (List ℤ × ℤ))
          (queried : Result (Option (Dict Text ℤ × ℤ))) (w : W)
          → 0 < length addrs
          → db_find_strategy_delegates app db answers.delegates_failure n ≡ ok pairs
          → TraderAnswer env app (some (block_arg n)) ledger queried
          → ProvidersAnswer env app n reserves addrs lps
          → Told
              (with_traders env app db float range select answers
                (record { block_number = n; addresses = addrs })
                addrs
                lps
                queried
                w).0
      unfolding with_traders
      with_traders-Told db answers lps (ok none) w some_addrs q h l = absurd h
      with_traders-Told db answers lps (err e) w some_addrs q h l =
          let exact : eqb (length addrs) 0 ≡ false = ground arith in
          rw (with_traders, exact, q)
            (returned-Told (err e) lps w
              (λ g is. inl (subst (NodeFails env app (some (block_arg n))) (err_injective is) h))
              (λ g is. inr (subst (ProvidersAnswer env app n reserves addrs) is l)) (λ d s. s))
      with_traders-Told db answers (err g) (ok (some (bal, tot))) w some_addrs q h l =
          let exact : eqb (length addrs) 0 ≡ false = ground arith in
          rw (with_traders, exact, q)
            (returned-Told (ok (bal, tot)) (err g) w (λ e is. cc)
              (λ e is. inr (subst (ProvidersAnswer env app n reserves addrs) is l)) (λ d s. s))
      with_traders-Told db answers (ok (balcs, t)) (ok (some (bal, tot))) w some_addrs q
            (inr (_, _, missing)) l =
          absurd (there.accounts_there missing)
      with_traders-Told db answers (ok (balcs, t)) (ok (some (bal, tot))) w some_addrs q
            (inl (cash, sums, all)) (inr (z, _, cause)) =
          elim cause [
            | inl exact ↦ absurd (there.some_supply (sym exact ∙ z))
            | inr missing ↦ absurd (there.tokens_there missing)
          ]
      with_traders-Told db answers (ok (balcs, t)) (ok (some (bal, tot))) w some_addrs q
            (inl (cash, sums, all)) (inl (is, are)) =
          let exact : eqb (length addrs) 0 ≡ false = ground arith in
          rw (with_traders, exact, q, is, are, all) (both-Told bal w cash)

      -- A request for given addresses, all different, at a block over nodes that may fail at any
      -- time, and where they answer agree on the accounts, their cash and the share tokens at the
      -- block; their answers for the pool's balance, which the code asks for at the latest block
      -- and not at that of the request, may differ and change. Given that the contracts are there
      -- and the supply of the share token at the block is not 0; that the database answers with the
      -- delegations; and that `select` takes the messages of the goroutines to the end in some
      -- order: the answer has one line for each address, in order, with its balance as a trader
      -- after the re-assignment of a map that has the cash of every owner at the block, and its
      -- part as a provider, by the share tokens at the block, of a balance that a node answered for
      -- its latest block, less the traders' cash; or it is the error of a node. It is no panic.
      pub balances-Told :
          (db : Db) (answers : DbAnswers) (w : W)
          → 0 < length addrs
          → db_find_strategy_delegates app db answers.delegates_failure n ≡ ok pairs
          → Told
              (balances env app db float range select answers
                (record { block_number = n; addresses = addrs })
                w).0
      unfolding balances requested_addrs
      balances-Told db answers w some_addrs delegated =
          let exact : eqb (length addrs) 0 ≡ false = ground arith in
          let (queried, v) = query_trader_balances env app (some (block_arg n)) w in
          let (lps, v') = query_lp_balances env app addrs n v in
          rw (balances, requested_addrs, exact)
            (with_traders-Told db answers lps queried v' some_addrs delegated
              (query_trader_balances-TraderAnswer env app (some (block_arg n)) ledger w)
              (query_lp_balances-ProvidersAnswer env app n reserves addrs v))
