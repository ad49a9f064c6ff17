-- ===== src/Api.antt =====
-- internal/api/handlers.go: the checks of a request for balances and the answer to it, and the
-- cached yield. `http.Error` is a rejection with its status and message.
pub mod Requests
pub mod Apy
pub mod Holders
pub mod Serve
pub mod Routes
use d8x_etherfi.Base.{
  ℕ, ◌≡◌, List, [], ◌∷◌, Option, none, some, Text, Result, ok, err, Error, String, if◌then◌else◌,
  ltb, eqb, min, ◌^◌, length,
}
use d8x_etherfi.Base.Int.{ℤ, pos, ◌-ℤ◌, ltb_ℤ, int64, mod_ℕ}
use d8x_etherfi.Utils.Payload.{Payload}
use d8x_etherfi.Utils.Address.{is_valid_evm_addr, to_lower}
use d8x_etherfi.Etherfi.App.{App}
use d8x_etherfi.Etherfi.Store.{Db, db_get_latest_block}

-- A handler goes on with a value, or has answered with an error.
pub data Checked (A : Type 0) : Type 0 where
  accepted : A → Checked A
  rejected : ℕ → String → Checked A

abbrev pub bad_request : ℕ
bad_request = 400

abbrev pub internal_server_error : ℕ
internal_server_error = 500

-- The loop that checks the addresses and lowers them; `none` for the first that is malformed.
unfoldable pub check_addrs : List Text → Option (List Text)
check_addrs [] = some []
check_addrs (addr ∷ addrs) =
    let rest : Option (List Text) = elim (check_addrs addrs) [
      | none ↦ none
      | some lowered ↦ some (to_lower addr ∷ lowered)
    ] in
    if is_valid_evm_addr addr then rest else none

abbrev pub with_addrs : ℕ → Option (List Text) → Checked Payload
with_addrs block none = rejected bad_request "malformated address in request"
with_addrs block (some addrs) = accepted (record { block_number = block; addresses = addrs })

-- `strconv.Atoi` returns a number also beside an error.
abbrev pub Atoi : Type 0
Atoi = Text → ℤ × Option Error

-- The block that `onGetBalances` asks for, from the latest one and the text of the request.
abbrev pub requested_block : Atoi → ℕ → Text → ℕ
requested_block atoi latest block_req =
    let (block_num, failure) = atoi block_req in
    if eqb (length block_req) 0
    then latest
    else (elim failure [ none ↦ latest | some _ ↦ min latest (mod_ℕ block_num (2 ^ 64)) ])

module _ {F : Type 0} (app : App F) (db : Db) (e₀ e₁ : Option Error) where
  -- `onGetBalances` up to `balanceResponse`. The errors are those of the database's answers.
  unfoldable pub on_get_balances : Atoi → Text → List Text → Checked Payload × App F
  unfolding check_addrs db_get_latest_block
  on_get_balances atoi block_req addrs =
      let (latest, app') = db_get_latest_block app db e₀ e₁ in
      (with_addrs (requested_block atoi latest block_req) (check_addrs addrs), app')

  -- `onBalances` up to `balanceResponse`, from what `json.Unmarshal` makes of the body.
  unfoldable pub on_balances : Result Payload → Checked Payload × App F
  unfolding check_addrs db_get_latest_block
  on_balances (err e) = (rejected bad_request "Wrong argument types.", app)
  on_balances (ok req) = elim (check_addrs req.addresses) [
    | none ↦ (rejected bad_request "malformated address in request", app)
    | some addrs ↦
        let (lb, app') = db_get_latest_block app db e₀ e₁ in
        (
          if ltb lb req.block_number
              then rejected internal_server_error "requested block not available"
              else accepted (record { block_number = req.block_number; addresses = addrs }),
          app',
        )
  ]

-- `balanceResponse`, from the result of `Balances` and with `json.Marshal`.
unfoldable pub balance_response : {A : Type 0} → (A → Result Text) → Result A → Checked Text
balance_response marshal (err e) = rejected internal_server_error "request failed"
balance_response marshal (ok res) = elim (marshal res) [
  | ok body ↦ accepted body
  | err e ↦ rejected internal_server_error "request failed"
]

-- `float64` as far as `onEtherfiApy` goes, with its constants 0.9, 29/32 and 100.
pub record Float (F : Type 0) : Type 0 where
  pub parse : Text → Result F
  pub quo : F → F → F
  pub mul : F → F → F
  pub round : F → F
  pub nine_tenths : F
  pub twenty_nine_of_32 : F
  pub hundred : F
  pub format : F → Text

module _ {F : Type 0} (float : Float F) where
  abbrev pub adjusted : F → F
  adjusted apr =
      float.quo
        (float.round (
          float.mul
            (float.quo (float.quo (float.quo apr float.nine_tenths) float.twenty_nine_of_32)
              float.hundred)
            float.hundred))
        float.hundred

  abbrev pub last : List Text → Option Text
  last [] = none
  last (x ∷ []) = some x
  last (x ∷ y ∷ xs) = last (y ∷ xs)

  -- What the endpoint answers: a status, and the yields that the body holds.
  abbrev pub Endpoint : Type 0
  Endpoint = Result (ℕ × Result (List Text))

  -- The renewal, from the app with its new timestamp. `none` is the panic on an empty list.
  unfoldable pub renew : Endpoint → App F → Option (Checked (App F))
  renew (err e) app = some (rejected internal_server_error "etherfi endpoint unavailable")
  renew (ok (status, decoded)) app =
      let unavailable : Checked (App F) =
        rejected internal_server_error "etherfi endpoint unavailable" in
      let read : Option (Checked (App F)) = elim decoded [
        | err e ↦ some unavailable
        | ok aprs ↦ elim (last aprs) [
          | none ↦ none
          | some apr ↦ elim (float.parse apr) [
            | err e ↦
                some (rejected internal_server_error "etherfi endpoint returns unexpected result")
            | ok f ↦ some (accepted (record app { etherfi_apy = adjusted f }))
          ]
        ]
      ] in
      if eqb status 200 then read else some unavailable

  -- What follows the renewal.
  abbrev pub respond : App F → Option (Checked (App F)) → Option (Checked Text × App F)
  respond stamped none = none
  respond stamped (some (rejected s m)) = some (rejected s m, stamped)
  respond stamped (some (accepted app')) = some (accepted (float.format app'.etherfi_apy), app')

  -- `onEtherfiApy` at the time `now`, with the answer of the endpoint should it be asked.
  unfoldable pub on_etherfi_apy : ℤ → Endpoint → App F → Option (Checked Text × App F)
  unfolding renew
  on_etherfi_apy now endpoint app =
      let stamped : App F = record app { etherfi_apy_ts = now } in
      if ltb_ℤ (pos 43_200) (int64 (now -ℤ app.etherfi_apy_ts))
      then respond stamped (renew endpoint stamped)
      else some (accepted (float.format app.etherfi_apy), app)
