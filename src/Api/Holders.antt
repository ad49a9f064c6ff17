-- ===== src/Api/Holders.antt =====
-- `onHolderContracts` of internal/api/handlers.go: the pool tokens that the manager's proxy holds.
use d8x_etherfi.Base.{
  ◌≡◌, refl, ap, ◌⊎◌, inl, inr, List, [], ◌∷◌, map, Option, none, some, Text, Result, ok, err,
  Error, String, if◌then◌else◌, eqb, length, Result-cases, nat_eq,
}
use d8x_etherfi.Base.Int.{ℤ, int64}
use d8x_etherfi.Chain.{Call}
use d8x_etherfi.Rounds.Trials.{try_times, try_times-all}
use d8x_etherfi.Utils.Address.{to_lower}
use d8x_etherfi.Etherfi.App.{App}
use d8x_etherfi.Etherfi.Call.{M}
use d8x_etherfi.Utils.Conv.{BigFloat, dec_n_to_float}
use d8x_etherfi.Etherfi.Queries.{Env, erc20_balance_abi, query_multi_token_balance}
use d8x_etherfi.Etherfi.Queries.Answers.{Answered, CallFails, query_multi_token_balance-Answered}
use d8x_etherfi.Api.{Checked, accepted, rejected, bad_request, internal_server_error, Atoi}

-- The `response` of the handler.
pub record HolderResponse (F : Type 0) : Type 0 where
  pub holder_contracts : List Text
  pub balance : List F
  pub status : String

-- The block that is asked for: none in the request, a number, or one that cannot be read.
abbrev pub holder_block : Atoi → Text → Result (Option ℤ)
holder_block atoi block_req =
    let (b, failure) = atoi block_req in
    if eqb (length block_req) 0
    then ok none
    else (elim failure [ none ↦ ok (some (int64 b)) | some e ↦ err e ])

module _ {W Client Contract Caller Erc20 Manager B F : Type 0}
    (env : Env W Client Contract Caller Erc20 Manager) (app : App F) (big : BigFloat B F)
    (marshal : HolderResponse F → Result Text) where
  abbrev pub holder_contracts : List Text
  holder_contracts = env.geth.hex app.perp_proxy ∷ []

  -- The loop that fills in the balances; `none` is an index out of range.
  unfoldable pub fill_balances : List Text → List ℤ → Option (List F)
  unfolding dec_n_to_float
  fill_balances [] bal = some []
  fill_balances (c ∷ cs) [] = none
  fill_balances (c ∷ cs) (b ∷ bal) = elim (fill_balances cs bal) [
    | none ↦ none
    | some fs ↦ some (dec_n_to_float big b app.pool_tkn_decimals ∷ fs)
  ]

  -- One round of the loop. The query goes to `client` and not to the node that was waited for.
  abbrev pub try_holder_balances : Client → Option ℤ → M W (List ℤ)
  try_holder_balances client block w =
      let (rpc, w') = env.pool.get_next_rpc w in
      query_multi_token_balance env client (to_lower (env.geth.hex app.pool_tkn_addr))
        holder_contracts block (env.pool.wait_for_token rpc w')

  -- The response, in JSON.
  abbrev pub write : List F → String → Checked Text
  write balance status =
      elim (marshal
        (record { holder_contracts = holder_contracts; balance = balance; status = status })) [
          | ok body ↦ accepted body
          | err e ↦ rejected internal_server_error "Unavailable"
        ]

  abbrev pub holder_response : Result (List ℤ) → Option (Checked Text)
  holder_response (err e) = some (write [] "balance unavailable")
  holder_response (ok bal) = elim (fill_balances holder_contracts bal) [
    | none ↦ none
    | some balance ↦ some (write balance "ok")
  ]

  -- `none` is a panic.
  unfoldable pub on_holder_contracts : Atoi → Text → W → Option (Checked Text) × W
  unfolding fill_balances
  on_holder_contracts atoi block_req w = elim (holder_block atoi block_req) [
    | err e ↦ (some (rejected bad_request "invalid block number"), w)
    | ok block ↦
        let (client, w') = env.pool.get_next_rpc w in
        let (bal, w'') =
          try_times 2 (try_holder_balances client block) (env.pool.wait_for_token client w') in
        (holder_response bal, w'')
  ]

  module _ (ledger : Option ℤ → Call Contract → ℤ)
      (agreed : (block : Option ℤ) (caller : Caller) (calls : List (Call Contract)) (w : W)
          (xs : List ℤ)
        → (env.node.call caller block calls w).0 ≡ ok xs
        → xs ≡ map (ledger block) calls)
      (contract : Contract)
      (parsed : env.node.new_contract erc20_balance_abi (to_lower (env.geth.hex app.pool_tkn_addr))
        ≡ ok contract) where
    -- What the proxy holds at the block.
    abbrev pub proxy_holds : Option ℤ → ℤ
    proxy_holds block =
        ledger block
          (Call.balance_of contract (env.geth.hex_to_address (env.geth.hex app.perp_proxy)))

    -- A connection or a call failed with the error.
    abbrev pub Unavailable : Option ℤ → Error → Type 0
    Unavailable block e =
        ((client : Client) × (env.node.new_caller client ≡ err e))
        ⊎ CallFails env block (ledger block) (agreed block) e

    -- The answer for a block that can be read: the balance, or that it is unavailable, because a
    -- connection or a call failed; and otherwise that the block is invalid.
    abbrev pub HolderAnswer : Result (Option ℤ) → Option (Checked Text) → Type 0
    HolderAnswer (err e) r = r ≡ some (rejected bad_request "invalid block number")
    HolderAnswer (ok block) r =
        (r ≡ some (write (dec_n_to_float big (proxy_holds block) app.pool_tkn_decimals ∷ []) "ok"))
        ⊎ ((r ≡ some (write [] "balance unavailable")) × ((e : Error) × Unavailable block e))

    HolderBalance : Option ℤ → Result (List ℤ) → Type 0
    HolderBalance block r =
        (r ≡ ok (proxy_holds block ∷ [])) ⊎ ((e : Error) × (r ≡ err e) × Unavailable block e)

    Answered-HolderBalance :
        (client : Client) (block : Option ℤ) (r : Result (List ℤ))
        → Answered env block (ledger block) (agreed block) client (proxy_holds block ∷ []) r
        → HolderBalance block r
    unfolding HolderBalance
    Answered-HolderBalance client block (ok xs) h = inl (ap ok h)
    Answered-HolderBalance client block (err e) (inl q) = inr (e, refl, inl (client, q))
    Answered-HolderBalance client block (err e) (inr q) = inr (e, refl, inr q)

    HolderBalance-HolderAnswer :
        (block : Option ℤ) (r : Result (List ℤ))
        → HolderBalance block r
        → HolderAnswer (ok block) (holder_response r)
    unfolding HolderBalance fill_balances
    HolderBalance-HolderAnswer block r (inl q) = inl (ap holder_response q)
    HolderBalance-HolderAnswer block r (inr (e, q, cause)) = inr (ap holder_response q, (e, cause))

    -- Over nodes that agree on the state at a block: a request whose block number cannot be read is a
    -- bad one; any other is answered with what the proxy holds of the pool's token at that block, or
    -- at the latest one if it names none, or with the status that the balance is unavailable, if a
    -- connection or a call to a node failed. There is no panic.
    pub on_holder_contracts-HolderAnswer :
        (atoi : Atoi) (block_req : Text) (w : W)
        → HolderAnswer (holder_block atoi block_req) (on_holder_contracts atoi block_req w).0
    unfolding on_holder_contracts
    on_holder_contracts-HolderAnswer atoi block_req w =
        elim (Result-cases (holder_block atoi block_req)) [
          | inr (e, q) ↦ rw (on_holder_contracts, q)
          | inl (block, q) ↦
              let (client, w') = env.pool.get_next_rpc w in
              let ask = try_holder_balances client block in
              let found : HolderBalance block
                  (try_times 2 ask (env.pool.wait_for_token client w')).0 =
                try_times-all 2 ask (env.pool.wait_for_token client w') (HolderBalance block) (λ v.
                  let (rpc, v') = env.pool.get_next_rpc v in
                  Answered-HolderBalance client block (ask v).0 (
                    query_multi_token_balance-Answered env block (ledger block) (agreed block)
                      contract client (to_lower (env.geth.hex app.pool_tkn_addr)) holder_contracts
                      (env.pool.wait_for_token rpc v') parsed)) in
              rw (on_holder_contracts, q) (HolderBalance-HolderAnswer block _ found)
        ]
