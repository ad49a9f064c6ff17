-- ===== src/Api/Requests.antt =====
-- What reaches `Balances`: lower-case valid addresses, and a block up to which the events are known.
use d8x_etherfi.Base.{
  ℕ, ◌≤◌, ◌<◌, ◌≡◌, refl, sym, ◌∙◌, List, [], ◌∷◌, map, Option, none, some, Text, ok, Error, true,
  All, arith, inl, inr, ◌⊎◌, Bool-cases, Option-cases, ltb, eqb, length,
}
use mathlib.Core.Bool.{false≢true}
use d8x_etherfi.Utils.Address.{is_valid_evm_addr, to_lower}
use d8x_etherfi.Etherfi.App.{App}
use d8x_etherfi.Etherfi.Store.{Db, db_get_latest_block}
use d8x_etherfi.Utils.Payload.{Payload}
use d8x_etherfi.Api.{
  Checked, accepted, rejected, check_addrs, requested_block, Atoi, on_get_balances, on_balances,
  bad_request, internal_server_error,
}

abbrev pub AllValid : List Text → Type 0
AllValid = All (λ a. is_valid_evm_addr a ≡ true)

-- The check passes exactly the lists of valid addresses, lowered.
pub check_addrs-cases :
    (addrs : List Text)
    → (AllValid addrs × (check_addrs addrs ≡ some (map to_lower addrs)))
      ⊎ ((AllValid addrs → ⊥) × (check_addrs addrs ≡ none))
unfolding check_addrs
check_addrs-cases [] = inl (tt, refl)
check_addrs-cases (a ∷ addrs) = elim (Bool-cases (is_valid_evm_addr a)) [
  | inr bad ↦ inr ((λ v. false≢true (sym bad ∙ v.0)), rw (check_addrs, bad))
  | inl good ↦ elim (check_addrs-cases addrs) [
    | inl (v, e) ↦ inl ((good, v), rw (check_addrs, good, e))
    | inr (v, e) ↦ inr ((λ w. v w.1), rw (check_addrs, good, e))
  ]
]

requested_block-le :
    (atoi : Atoi) (latest : ℕ) (block_req : Text) → requested_block atoi latest block_req ≤ latest
requested_block-le atoi latest block_req = elim (Bool-cases (eqb (length block_req) 0)) [
  | inl q ↦ rw q (omega arith)
  | inr q ↦ elim (Option-cases (atoi block_req).1) [
    | inl p ↦ rw (q, p) (omega arith)
    | inr (e, p) ↦ rw (q, p) (omega arith)
  ]
]

-- A request that is let through has valid addresses, its payload has them in lower case, and the
-- block is not after the latest one; a request that is not has a malformed address.
abbrev pub Admits : ℕ → List Text → Checked Payload → Type 0
Admits latest addrs (accepted p) =
    AllValid addrs × (p.addresses ≡ map to_lower addrs) × (p.block_number ≤ latest)
Admits latest addrs (rejected status message) = (AllValid addrs → ⊥) × (status ≡ bad_request)

module _ {F : Type 0} (app : App F) (db : Db) (e₀ e₁ : Option Error) where
  -- Every GET request for balances is let through exactly if all its addresses are valid: then they
  -- are passed on in lower case, with a block that is not after the latest known one; and otherwise
  -- the request is answered as a bad one.
  pub on_get_balances-Admits :
      (atoi : Atoi) (block_req : Text) (addrs : List Text)
      → Admits
          (db_get_latest_block app db e₀ e₁).0
          addrs
          (on_get_balances app db e₀ e₁ atoi block_req addrs).0
  unfolding on_get_balances
  on_get_balances-Admits atoi block_req addrs = elim (check_addrs-cases addrs) [
    | inl (v, e) ↦ rw (on_get_balances, e) (v, refl, requested_block-le atoi _ block_req)
    | inr (v, e) ↦ rw (on_get_balances, e) (v, refl)
  ]

  -- A GET request with a block number that can be read is treated as one with no block number.
  pub on_get_balances-ignores :
      (atoi : Atoi) (block_req : Text) (addrs : List Text)
      → (atoi block_req).1 ≡ none
      → on_get_balances app db e₀ e₁ atoi block_req addrs
        ≡ on_get_balances app db e₀ e₁ atoi [] addrs
  unfolding on_get_balances
  on_get_balances-ignores atoi block_req addrs e = elim (Bool-cases (eqb (length block_req) 0)) [
    | inl q ↦ rw (on_get_balances, q)
    | inr q ↦ rw (on_get_balances, q, e)
  ]

  -- How a POST request that could be decoded ends.
  abbrev Decides : Payload → Checked Payload → Type 0
  Decides req (accepted p) =
      AllValid req.addresses
      × (p.addresses ≡ map to_lower req.addresses)
      × (p.block_number ≡ req.block_number)
      × (req.block_number ≤ (db_get_latest_block app db e₀ e₁).0)
  Decides req (rejected status message) =
      ((AllValid req.addresses → ⊥) × (status ≡ bad_request))
      ⊎ (((db_get_latest_block app db e₀ e₁).0 < req.block_number)
          × (status ≡ internal_server_error))

  -- A POST request that can be decoded is let through with its own block, which is known, and its
  -- addresses, which are valid, in lower case; or it has a malformed address, or asks for a block
  -- after the latest known one.
  on_balances-Decides : (req : Payload) → Decides req (on_balances app db e₀ e₁ (ok req)).0
  unfolding on_balances
  on_balances-Decides req = elim (check_addrs-cases req.addresses) [
    | inr (v, e) ↦ rw (on_balances, e) (inl (v, refl))
    | inl (v, e) ↦
        let lb = (db_get_latest_block app db e₀ e₁).0 in
        elim (Bool-cases (ltb lb req.block_number)) [
          | inl late ↦ rw (on_balances, e, late) (inr (ground arith, refl))
          | inr known ↦ rw (on_balances, e, known) (v, refl, refl, ground arith)
        ]
  ]
