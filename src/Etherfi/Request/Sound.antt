-- ===== src/Etherfi/Request/Sound.antt =====
-- A request for all holders, over nodes that agree on the state at its block.
use d8x_etherfi.Base.{
  ℕ, ◌≤◌, ◌<◌, ◌≡◌, ◌≢◌, refl, ap, sym, ◌∙◌, inl, inr, List, [], ◌∷◌, map, Option, none, some, Text,
  text_eq, Result, ok, err, Error, Result-cases, err_injective, false, length, length-map, All,
  arith,
}
use mathlib.Core.Path.{subst, subst₂, ap₂}
use mathlib.Core.List.{Perm}
use d8x_etherfi.Base.Int.{ℤ, pos, ◌+ℤ◌, ◌-ℤ◌, ◌≤ℤ◌, eqb_ℤ}
use d8x_etherfi.Base.Dict.{Dict, total}
use d8x_etherfi.Chain.{Address}
use d8x_etherfi.Utils.Payload.{Payload}
use d8x_etherfi.Etherfi.App.{App}
use d8x_etherfi.Etherfi.Retry.{no_contract_code}
use d8x_etherfi.Etherfi.Queries.{Env, block_arg, pool_balance, query_lp_balances}
use d8x_etherfi.Etherfi.Queries.Accounts.{Ledger, NodeFails}
use d8x_etherfi.Etherfi.Queries.Providers.{
  Reserves, TokenFails, LatestBalance, PoolRead, ProvidersAnswer, NodeError, pool_balance-PoolRead,
  query_lp_balances-ProvidersAnswer,
}
use d8x_etherfi.Etherfi.Traders.{query_trader_balances}
use d8x_etherfi.Etherfi.Traders.Exact.{
  traders_cash, TraderAnswer, query_trader_balances-TraderAnswer,
}
use d8x_etherfi.Etherfi.Shares.Bounds.{sum}
use d8x_etherfi.Etherfi.Combine.{Float, Balance}
use d8x_etherfi.Etherfi.Combine.Conserved.{Amounts, report}
use d8x_etherfi.Etherfi.Store.{Db, db_get_share_token_holders, db_find_strategy_delegates}
use d8x_etherfi.Etherfi.Balances.{Handler, trader_messages, lp_messages, after_loop}
use d8x_etherfi.Etherfi.Balances.Read.{finish_balances-err}
use d8x_etherfi.Etherfi.Balances.Settled.{Settled, IsReturned, handler-Settled}
use d8x_etherfi.Etherfi.Balances.Whole.{after_loop-PaysOut}
use d8x_etherfi.Etherfi.Request.{Select, IsFair, DbAnswers, requested_addrs, with_traders, balances}

module _ {W Client Contract Caller Erc20 Manager F : Type 0}
    (env : Env W Client Contract Caller Erc20 Manager) (app : App F) (float : Float F)
    (range : Dict Text ℤ → List (Text × ℤ)) (runs : (d : Dict Text ℤ) → Perm (range d) d)
    (n : ℕ) where
  module _ (ledger : Ledger env app (some (block_arg n))) (reserves : Reserves env app n) where
    -- The contracts are there, the holders of the share token hold no more of it than there is, and
    -- whatever a node answers for the pool's balance at its latest block covers what the traders have.
    pub record IsSolvent (holds : Address → ℕ) (supply : ℕ) (addrs : List Text) : Type 0 where
      pub accounts_there : NodeFails env app (some (block_arg n)) no_contract_code → ⊥
      pub tokens_there : TokenFails env app n no_contract_code → ⊥
      pub supply_is : reserves.supply ≡ pos supply
      pub some_supply : 0 < supply
      pub held_is : (a : Address) → reserves.held a ≡ pos (holds a)
      pub not_more : sum (map (λ a. holds (env.geth.hex_to_address a)) addrs) ≤ supply
      pub covered :
          (b : ℤ)
          → LatestBalance env app b
          → (left : ℕ) × (b -ℤ traders_cash env app (some (block_arg n)) ledger ≡ pos left)

    module _ (holds : Address → ℕ) (supply : ℕ) (addrs : List Text)
        (solvent : IsSolvent holds supply addrs) where
      abbrev pub held_by : List ℕ
      held_by = map (λ a. holds (env.geth.hex_to_address a)) addrs

      -- A report of amounts that are together at most a balance of the pool that a node answered for its
      -- latest block, and at most one unit for each address below it if the addresses hold all share
      -- tokens; or the error of a node.
      abbrev pub Answer : Result (Option (List (Balance F))) → Type 0
      Answer (ok none) = ⊥
      Answer (ok (some out)) =
          (balance : ℤ) × (xs : Amounts) × LatestBalance env app balance
          × (out ≡ map (report float app.pool_tkn_decimals) xs)
          × (total xs ≤ℤ balance)
          × (sum held_by ≡ supply → balance ≤ℤ total xs +ℤ pos (length addrs))
      Answer (err e) = NodeError env app n e

      held-pos :
          (texts : List Text)
          → map (λ a. reserves.held (env.geth.hex_to_address a)) texts
            ≡ map pos (map (λ a. holds (env.geth.hex_to_address a)) texts)
      held-pos [] = refl
      held-pos (a ∷ texts) = ap₂ ◌∷◌ (solvent.held_is (env.geth.hex_to_address a)) (held-pos texts)

      module _ (select : Select) (fair : IsFair select) (pairs : List (Text × Text))
          (apart : All (λ p. p.0 ≢ p.1) pairs) where
        -- How the handler ends, and then the answer.
        abbrev answered :
            Result (Dict Text ℤ × ℤ)
            → Result (List (Text × Text))
            → Result (List ℤ × ℤ)
            → W
            → Result (Option (List (Balance F)))
        answered queried found lps w =
            (after_loop env app float range addrs false n
              (select (trader_messages queried found) (lp_messages lps)) w).0

        -- An error of one of the results fails the request with it.
        returned-Answer :
            (queried : Result (Dict Text ℤ × ℤ)) (lps : Result (List ℤ × ℤ)) (w : W)
            → ((e : Error) → queried ≡ err e → NodeError env app n e)
            → ((e : Error) → lps ≡ err e → NodeError env app n e)
            → ((h : Handler)
                → Settled queried (ok pairs) lps h
                → IsReturned queried (ok pairs) lps h)
            → Answer (answered queried (ok pairs) lps w)
        unfolding after_loop
        returned-Answer queried lps w of_queried of_lps bad =
            let (d, r, f, ends) = fair queried (ok pairs) lps in
            let (e, is, cause) = bad d.handler (handler-Settled queried (ok pairs) lps d r f) in
            subst (λ h. Answer (after_loop env app float range addrs false n h w).0)
              (sym (ends ∙ is))
              (elim cause [ inl q ↦ of_queried e q | inr (inl q) ↦ cc | inr (inr q) ↦ of_lps e q ])

        both-Answer :
            (bal : Dict Text ℤ) (tot : ℤ) (w : W)
            → total bal ≡ tot
            → tot ≡ traders_cash env app (some (block_arg n)) ledger
            → Answer (answered (ok (bal, tot)) (ok pairs) (ok (map pos held_by, pos supply)) w)
        unfolding after_loop
        both-Answer bal tot w sums all =
            let (d, r, f, ends) =
              fair (ok (bal, tot)) (ok pairs) (ok (map pos held_by, pos supply)) in
            let nonzero : eqb_ℤ (pos supply) (pos 0) ≡ false =
              ground (arith, solvent.some_supply) in
            let read = pool_balance-PoolRead env app n w in
            elim (Result-cases (pool_balance env app n w).0) [
              | inl (b, q) ↦
                  let is : LatestBalance env app b = elim (subst (PoolRead env app n) q read) [
                    | inl x ↦ x
                    | inr (_, missing) ↦ absurd (solvent.tokens_there missing)
                  ] in
                  let (left, cover) = solvent.covered b is in
                  let (out, made, (o, xs, some_out, are, low, high)) =
                    after_loop-PaysOut env app float range runs w n addrs bal tot pairs held_by
                      supply left b d r f sums apart
                      (sym (length-map (λ a. holds (env.geth.hex_to_address a)) addrs))
                      solvent.some_supply solvent.not_more (ap (λ t. b -ℤ t) all ∙ cover) q in
                  subst Answer
                    (sym (
                      ap (λ h. (after_loop env app float range addrs false n h w).0) ends
                      ∙ made
                      ∙ ap ok some_out))
                    (b, xs, is, are, low, high)
              | inr (e, q) ↦
                  let fails = subst (PoolRead env app n) q read in
                  let is =
                    handler-Settled (ok (bal, tot)) (ok pairs) (ok (map pos held_by, pos supply)) d
                      r f in
                  subst (λ h. Answer (after_loop env app float range addrs false n h w).0)
                    (sym (ends ∙ is))
                    (subst Answer
                      (sym (
                        finish_balances-err env app float range n addrs false (map pos held_by)
                          (pos supply) tot _ w nonzero q))
                      (inr (inl fails)))
            ]

        abbrev request : Payload
        request = record { block_number = n; addresses = [] }

        pub with_traders-Answer :
            (db : Db) (answers : DbAnswers) (lps : Result (List ℤ × ℤ))
            (queried : Result (Option (Dict Text ℤ × ℤ))) (w : W)
            → db_find_strategy_delegates app db answers.delegates_failure n ≡ ok pairs
            → TraderAnswer env app (some (block_arg n)) ledger queried
            → ProvidersAnswer env app n reserves addrs lps
            → Answer
                (with_traders env app db float range select answers request addrs lps queried w).0
        unfolding with_traders
        with_traders-Answer db answers lps (ok none) w q h l = absurd h
        with_traders-Answer db answers lps (err e) w q h l =
            subst (λ f. Answer (answered (err e) f lps w)) (sym q)
              (returned-Answer (err e) lps w
                (λ g is. inl (subst (NodeFails env app (some (block_arg n))) (err_injective is) h))
                (λ g is. inr (subst (ProvidersAnswer env app n reserves addrs) is l)) (λ d s. s))
        with_traders-Answer db answers (err g) (ok (some (bal, tot))) w q h l =
            subst (λ f. Answer (answered (ok (bal, tot)) f (err g) w)) (sym q)
              (returned-Answer (ok (bal, tot)) (err g) w (λ e is. cc)
                (λ e is. inr (subst (ProvidersAnswer env app n reserves addrs) is l)) (λ d s. s))
        with_traders-Answer db answers (ok (balcs, t)) (ok (some (bal, tot))) w q
              (inr (_, _, missing)) l =
            absurd (solvent.accounts_there missing)
        with_traders-Answer db answers (ok (balcs, t)) (ok (some (bal, tot))) w q
              (inl (_, sums, all)) (inr (z, _, cause)) =
            elim cause [
              | inl none_there ↦ ground arith
              | inr missing ↦ absurd (solvent.tokens_there missing)
            ]
        with_traders-Answer db answers (ok (balcs, t)) (ok (some (bal, tot))) w q
              (inl (_, sums, all)) (inl (is, are)) =
            subst (λ f. Answer (answered (ok (bal, tot)) f (ok (balcs, t)) w)) (sym q)
              (subst₂ (λ xs s. Answer (answered (ok (bal, tot)) (ok pairs) (ok (xs, s)) w))
                (sym (are ∙ held-pos addrs)) (sym (is ∙ solvent.supply_is))
                (both-Answer bal tot w sums all))

        -- A request for all holders at a block over nodes that may fail at any time, and where they
        -- answer agree on the accounts, their cash and the share tokens at the block; their answers
        -- for the pool's balance, which the code asks for at the latest block and not at that of
        -- the request, may differ and change. Given that the database answers; that no address
        -- delegates to itself; that the contracts are there; that the holders hold no more of the
        -- share token than its supply, which is not 0; that whatever a node answers for the pool's
        -- balance at its latest block is at least the traders' cash at the block; and that `select`
        -- takes the messages of the goroutines to the end in some order: the answer is a report
        -- whose amounts are together at most a balance of the pool that a node answered for its
        -- latest block, and at most one unit for each holder below that balance if the holders hold
        -- all share tokens at the block; or it is the error of a node. It is no panic.
        pub balances-Answer :
            (db : Db) (answers : DbAnswers) (w : W)
            → db_get_share_token_holders app db answers.holders_failure n ≡ ok addrs
            → db_find_strategy_delegates app db answers.delegates_failure n ≡ ok pairs
            → Answer
                (balances env app db float range select answers
                  (record { block_number = n; addresses = [] })
                  w).0
        unfolding balances requested_addrs
        balances-Answer db answers w holders delegated =
            let (queried, v) = query_trader_balances env app (some (block_arg n)) w in
            let (lps, v') = query_lp_balances env app addrs n v in
            rw (balances, requested_addrs, holders)
              (with_traders-Answer db answers lps queried v' delegated
                (query_trader_balances-TraderAnswer env app (some (block_arg n)) ledger w)
                (query_lp_balances-ProvidersAnswer env app n reserves addrs v))
