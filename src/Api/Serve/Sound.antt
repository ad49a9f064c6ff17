-- ===== src/Api/Serve/Sound.antt =====
-- A GET request for all holders, from its texts to its answer.
use d8x_etherfi.Base.{
  ℕ, ◌<◌, ◌≡◌, ◌≢◌, refl, sym, ap, ◌∙◌, ◌⊎◌, inl, inr, List, [], Option, none, some, Text, Result,
  ok, err, Error, Result-cases, All, arith, min, eqb, false,
}
use mathlib.Core.Path.{subst}
use mathlib.Core.List.{Perm}
use d8x_etherfi.Base.Int.{ℤ}
use d8x_etherfi.Base.Dict.{Dict}
use d8x_etherfi.Chain.{Address}
use d8x_etherfi.Utils.Payload.{Payload}
use d8x_etherfi.Etherfi.App.{App}
use d8x_etherfi.Etherfi.Queries.{Env, block_arg}
use d8x_etherfi.Etherfi.Queries.Accounts.{Ledger}
use d8x_etherfi.Etherfi.Queries.Providers.{Reserves, NodeError}
use d8x_etherfi.Etherfi.Combine.{Float, Balance}
use d8x_etherfi.Etherfi.Store.{
  Db, db_get_latest_block, db_get_delegate_start_block, db_get_sh_tkn_transfer_start_block,
  db_get_share_token_holders, db_find_strategy_delegates,
}
use d8x_etherfi.Etherfi.Request.{Select, IsFair, DbAnswers, balances}
use d8x_etherfi.Etherfi.Request.Sound.{IsSolvent, Answer, balances-Answer}
use d8x_etherfi.Api.{
  Checked, accepted, rejected, internal_server_error, Atoi, requested_block, on_get_balances,
  with_addrs, check_addrs, balance_response,
}
use d8x_etherfi.Api.Serve.{answered, serve, get_balances}

-- Once both goroutines have run, the latest block is the lower one of the two in the cache.
pub latest_cached :
    {F : Type 0} (app : App F) (db : Db) (e₀ e₁ : Option Error)
    → 0 < app.last_delegates
    → 0 < app.last_transfers
    → db_get_latest_block app db e₀ e₁ ≡ (min app.last_delegates app.last_transfers, app)
unfolding db_get_latest_block db_get_delegate_start_block db_get_sh_tkn_transfer_start_block
latest_cached app db e₀ e₁ d t =
    let has_d : eqb app.last_delegates 0 ≡ false = ground arith in
    let has_t : eqb app.last_transfers 0 ≡ false = ground arith in
    rw (
      db_get_latest_block, db_get_delegate_start_block, has_d, db_get_sh_tkn_transfer_start_block,
      has_t,
    )

-- The request is then for that block or one before it, and the cache stays.
on_get_balances-cached :
    {F : Type 0} (app : App F) (db : Db) (e₀ e₁ : Option Error) (atoi : Atoi) (block_req : Text)
    → 0 < app.last_delegates
    → 0 < app.last_transfers
    → on_get_balances app db e₀ e₁ atoi block_req [] ≡ (
      accepted (record {
        block_number = requested_block atoi (min app.last_delegates app.last_transfers) block_req;
        addresses = [];
      }),
      app,
    )
unfolding on_get_balances check_addrs db_get_latest_block
on_get_balances-cached app db e₀ e₁ atoi block_req d t =
    ap (λ r. (with_addrs (requested_block atoi r.0 block_req) (some []), r.1))
      (latest_cached app db e₀ e₁ d t)

module _ {W Client Contract Caller Erc20 Manager F : Type 0}
    (env : Env W Client Contract Caller Erc20 Manager) (app : App F) (float : Float F)
    (range : Dict Text ℤ → List (Text × ℤ)) (runs : (d : Dict Text ℤ) → Perm (range d) d) (n : ℕ)
    (ledger : Ledger env app (some (block_arg n))) (reserves : Reserves env app n)
    (holds : Address → ℕ) (supply : ℕ) (addrs : List Text)
    (solvent : IsSolvent env app float range runs n ledger reserves holds supply addrs)
    (marshal : List (Balance F) → Result Text) where
  -- The body is that of a sound report; or the server fails, for the error of a node or of the
  -- encoding.
  abbrev pub Served : Option (Checked Text) → Type 0
  Served none = ⊥
  Served (some (accepted body)) =
      (out : List (Balance F)) × (marshal out ≡ ok body)
      × Answer env app float range runs n ledger reserves holds supply addrs solvent (ok (some out))
  Served (some (rejected status message)) =
      (status ≡ internal_server_error)
      × (((e : Error) × NodeError env app n e)
          ⊎ ((out : List (Balance F)) × (e : Error) × (marshal out ≡ err e)))

  answered-Served :
      (res : Result (Option (List (Balance F)))) (db : Db) (select : Select) (answers : DbAnswers)
      → Answer env app float range runs n ledger reserves holds supply addrs solvent res
      → Served (answered env db float range select answers marshal res)
  unfolding balance_response
  answered-Served (ok none) db select answers h = absurd h
  answered-Served (err e) db select answers h = (refl, inl (e, h))
  answered-Served (ok (some out)) db select answers h = elim (Result-cases (marshal out)) [
    | inl (body, q) ↦ rw (balance_response, q) (out, q, h)
    | inr (e, q) ↦ rw (balance_response, q) (refl, inr (out, e, q))
  ]

  module _ (select : Select) (fair : IsFair select) (pairs : List (Text × Text))
      (apart : All (λ p. p.0 ≢ p.1) pairs) where
    -- A GET request with no address, after both goroutines of the event sync have set their blocks,
    -- over nodes that may fail at any time, and where they answer agree on the accounts, their cash
    -- and the share tokens at the block; their answers for the pool's balance, which the code asks
    -- for at the latest block and not at that of the request, may differ and change. Given that the
    -- database answers; that no address delegates to itself; that the contracts are there; that the
    -- holders hold no more of the share token than its supply, which is not 0; that whatever a node
    -- answers for the pool's balance at its latest block is at least the traders' cash at the
    -- block; and that `select` takes the messages of the goroutines to the end in some order: it is
    -- answered with a report whose amounts are together at most a balance of the pool that a node
    -- answered for its latest block, which need not be that at the block the request is for, and at
    -- most one unit for each holder below it if the holders hold all share tokens; or with a
    -- failure of the server, for the error of a node or of the encoding. It is no panic and no bad
    -- request.
    pub get_balances-Served :
        (db : Db) (answers : DbAnswers) (e₀ e₁ : Option Error) (atoi : Atoi) (block_req : Text)
        (w : W)
        → 0 < app.last_delegates
        → 0 < app.last_transfers
        → requested_block atoi (min app.last_delegates app.last_transfers) block_req ≡ n
        → db_get_share_token_holders app db answers.holders_failure n ≡ ok addrs
        → db_find_strategy_delegates app db answers.delegates_failure n ≡ ok pairs
        → Served
            (get_balances env db float range select answers marshal app e₀ e₁ atoi block_req [] w).0
    unfolding get_balances serve on_get_balances check_addrs
    get_balances-Served db answers e₀ e₁ atoi block_req w d t asked holders delegated =
        let req : Payload = record { block_number = n; addresses = [] } in
        let admitted : on_get_balances app db e₀ e₁ atoi block_req [] ≡ (accepted req, app) =
          on_get_balances-cached app db e₀ e₁ atoi block_req d t
          ∙ ap (λ b. (accepted (record { block_number = b; addresses = [] }), app)) asked in
        subst (λ r. Served (serve env db float range select answers marshal r.1 r.0 w).0)
          (sym admitted)
          (answered-Served (balances env app db float range select answers req w).0 db select
            answers
            (balances-Answer env app float range runs n ledger reserves holds supply addrs solvent
              select fair pairs apart db answers w holders delegated))
