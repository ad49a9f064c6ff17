-- ===== src/Api/Serve/Told.antt =====
-- A POST request for given addresses, from its body to its answer.
use d8x_etherfi.Base.{
  ℕ, ◌≤◌, ◌<◌, ◌≡◌, refl, sym, ap, ◌∙◌, ◌⊎◌, inl, inr, List, map, Option, none, some, Text, Result,
  ok, err, Error, Result-cases, Bool-cases, arith, min, ltb, length, length-map, if◌then◌else◌,
}
use mathlib.Core.Path.{subst}
use d8x_etherfi.Base.Int.{ℤ}
use d8x_etherfi.Base.Dict.{Dict}
use d8x_etherfi.Utils.Address.{to_lower}
use d8x_etherfi.Utils.Payload.{Payload}
use d8x_etherfi.Etherfi.App.{App}
use d8x_etherfi.Etherfi.Queries.{Env, block_arg}
use d8x_etherfi.Etherfi.Queries.Accounts.{Ledger}
use d8x_etherfi.Etherfi.Queries.Providers.{Reserves, NodeError}
use d8x_etherfi.Etherfi.Combine.{Float, Balance}
use d8x_etherfi.Etherfi.Combine.Exact.{Distinct}
use d8x_etherfi.Etherfi.Store.{Db, db_get_latest_block, db_find_strategy_delegates}
use d8x_etherfi.Etherfi.Request.{Select, IsFair, DbAnswers, balances}
use d8x_etherfi.Etherfi.Request.Told.{IsThere, Told, balances-Told}
use d8x_etherfi.Api.{
  Checked, accepted, rejected, bad_request, internal_server_error, on_balances, check_addrs,
  balance_response,
}
use d8x_etherfi.Api.Requests.{AllValid, check_addrs-cases}
use d8x_etherfi.Api.Serve.{answered, serve, post_balances}
use d8x_etherfi.Api.Serve.Sound.{latest_cached}

-- How the checks of a POST request end, once both goroutines have run.
on_balances-cached :
    {F : Type 0} (app : App F) (db : Db) (e₀ e₁ : Option Error) (req : Payload)
    → 0 < app.last_delegates
    → 0 < app.last_transfers
    → ((AllValid req.addresses → ⊥)
        × (on_balances app db e₀ e₁ (ok req)
            ≡ (rejected bad_request "malformated address in request", app)))
      ⊎ ((min app.last_delegates app.last_transfers < req.block_number)
          × (on_balances app db e₀ e₁ (ok req)
              ≡ (rejected internal_server_error "requested block not available", app)))
      ⊎ (AllValid req.addresses
          × (req.block_number ≤ min app.last_delegates app.last_transfers)
          × (on_balances app db e₀ e₁ (ok req) ≡ (
            accepted (record {
              block_number = req.block_number;
              addresses = map to_lower req.addresses;
            }),
            app,
          )))
unfolding on_balances
on_balances-cached {F} app db e₀ e₁ req d t = elim (check_addrs-cases req.addresses) [
  | inr (v, e) ↦ inl (v, rw (on_balances, e))
  | inl (v, e) ↦
      let decided : ℕ × App F → Checked Payload × App F = λ r. (
        if ltb r.0 req.block_number
            then rejected internal_server_error "requested block not available"
            else accepted (record {
              block_number = req.block_number;
              addresses = map to_lower req.addresses;
            }),
        r.1,
      ) in
      let is : on_balances app db e₀ e₁ (ok req) ≡ decided (db_get_latest_block app db e₀ e₁) =
        rw (on_balances, e) in
      let latest = is ∙ ap decided (latest_cached app db e₀ e₁ d t) in
      elim (Bool-cases (ltb (min app.last_delegates app.last_transfers) req.block_number)) [
        | inl late ↦ inr (inl (ground arith, latest ∙ rw late))
        | inr known ↦ inr (inr (v, ground arith, latest ∙ rw known))
      ]
]

module _ {W Client Contract Caller Erc20 Manager F : Type 0}
    (env : Env W Client Contract Caller Erc20 Manager) (app : App F) (float : Float F)
    (range : Dict Text ℤ → List (Text × ℤ)) (req : Payload)
    (ledger : Ledger env app (some (block_arg req.block_number)))
    (reserves : Reserves env app req.block_number)
    (there : IsThere env app float range req.block_number ledger reserves)
    (distinct : Distinct (map to_lower req.addresses)) (pairs : List (Text × Text))
    (marshal : List (Balance F) → Result Text) where
  -- The body is that of a line for each address; or the server fails, for the error of a node or of
  -- the encoding.
  abbrev pub ToldServed : Option (Checked Text) → Type 0
  ToldServed none = ⊥
  ToldServed (some (accepted body)) =
      (out : List (Balance F)) × (marshal out ≡ ok body)
      × Told env app float range req.block_number ledger reserves there (map to_lower req.addresses)
          distinct pairs (ok (some out))
  ToldServed (some (rejected status message)) =
      (status ≡ internal_server_error)
      × (((e : Error) × NodeError env app req.block_number e)
          ⊎ ((out : List (Balance F)) × (e : Error) × (marshal out ≡ err e)))

  -- The three ways in which a request that could be decoded ends.
  abbrev pub PostAnswer : Option (Checked Text) → Type 0
  PostAnswer r =
      ((AllValid req.addresses → ⊥)
        × (r ≡ some (rejected bad_request "malformated address in request")))
      ⊎ ((min app.last_delegates app.last_transfers < req.block_number)
          × (r ≡ some (rejected internal_server_error "requested block not available")))
      ⊎ (AllValid req.addresses
          × (req.block_number ≤ min app.last_delegates app.last_transfers)
          × ToldServed r)

  answered-ToldServed :
      (res : Result (Option (List (Balance F)))) (db : Db) (select : Select) (answers : DbAnswers)
      → Told env app float range req.block_number ledger reserves there
          (map to_lower req.addresses)
          distinct
          pairs
          res
      → ToldServed (answered env db float range select answers marshal res)
  unfolding balance_response
  answered-ToldServed (ok none) db select answers h = absurd h
  answered-ToldServed (err e) db select answers h = (refl, inl (e, h))
  answered-ToldServed (ok (some out)) db select answers h = elim (Result-cases (marshal out)) [
    | inl (body, q) ↦ rw (balance_response, q) (out, q, h)
    | inr (e, q) ↦ rw (balance_response, q) (refl, inr (out, e, q))
  ]

  module _ (select : Select) (fair : IsFair select) where
    -- A POST request for some addresses that are all different in lower case, after both goroutines
    -- of the event sync have set their blocks, over nodes that may fail at any time, and where they
    -- answer agree on the accounts, their cash and the share tokens at the block; their answers for
    -- the pool's balance, which the code asks for at the latest block and not at that of the
    -- request, may differ and change. Given that the contracts are there and the supply of the
    -- share token at the block is not 0; that the database answers with the delegations; and that
    -- `select` takes the messages of the goroutines to the end in some order: if an address is
    -- malformed, it is a bad request; or if its block is after the latest known one, the server
    -- fails; or its addresses are valid and its block known, and it is answered with one line for
    -- each address, in order and in lower case, of its balance as a trader and of its part as a
    -- provider of a balance that a node answered for its latest block, whatever block the request
    -- is for, less the traders' cash; or with a failure of the server, for the error of a node or
    -- of the encoding. It is no panic.
    pub post_balances-PostAnswer :
        (db : Db) (answers : DbAnswers) (e₀ e₁ : Option Error) (w : W)
        → 0 < app.last_delegates
        → 0 < app.last_transfers
        → 0 < length req.addresses
        → db_find_strategy_delegates app db answers.delegates_failure req.block_number ≡ ok pairs
        → PostAnswer
            (post_balances env db float range select answers marshal app e₀ e₁ (ok req) w).0
    unfolding post_balances serve on_balances check_addrs
    post_balances-PostAnswer db answers e₀ e₁ w d t some_addrs delegated =
        let lowered = map to_lower req.addresses in
        let end = λ (r : Checked Payload × App F).
          (serve env db float range select answers marshal r.1 r.0 w).0 in
        elim (on_balances-cached app db e₀ e₁ req d t) [
          | inl (v, q) ↦ inl (v, ap end q)
          | inr (inl (late, q)) ↦ inr (inl (late, ap end q))
          | inr (inr (v, known, q)) ↦
              let asked : Payload = record {
                block_number = req.block_number;
                addresses = lowered;
              } in
              let many : 0 < length lowered = omega (arith, length-map to_lower req.addresses) in
              inr (
                inr (
                  v,
                  known,
                  subst (λ r. ToldServed (end r)) (sym q)
                      (answered-ToldServed
                        (balances env app db float range select answers asked w).0 db select answers
                        (balances-Told env app float range req.block_number ledger reserves there
                          lowered distinct pairs select fair db answers w many delegated)),
                ))
        ]
