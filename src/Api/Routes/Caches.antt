-- ===== src/Api/Routes/Caches.antt =====
-- The app's caches, and what the handlers leave of it.
use d8x_etherfi.Base.{
  ◌<◌, ◌≡◌, refl, sym, ap, ◌∙◌, inl, inr, Option, none, some, Text, Result, ok, err, Error,
  Option-cases, Bool-cases, Result-cases, arith, eqb,
}
use mathlib.Core.Path.{subst}
use d8x_etherfi.Base.Int.{ℤ, pos, ◌-ℤ◌, ltb_ℤ, int64}
use d8x_etherfi.Etherfi.App.{App}
use d8x_etherfi.Etherfi.Store.{
  Db, db_get_delegate_start_block, db_get_sh_tkn_transfer_start_block, db_get_latest_block,
}
use d8x_etherfi.Utils.Payload.{Payload}
use d8x_etherfi.Api.{
  Checked, accepted, rejected, check_addrs, on_balances, Float, Endpoint, last, renew, respond,
  on_etherfi_apy,
}

module _ {F : Type 0} where
  -- An app with the caches of another: the last blocks, and the yield with its time.
  abbrev pub with_caches : App F → App F → App F
  with_caches app other = record app {
    last_delegates = other.last_delegates;
    last_transfers = other.last_transfers;
    etherfi_apy = other.etherfi_apy;
    etherfi_apy_ts = other.etherfi_apy_ts;
  }

  -- Only caches have changed, and no block that was set.
  pub record Keeps (app app' : App F) : Type 0 where
    pub configured : app' ≡ with_caches app app'
    pub delegates_kept : 0 < app.last_delegates → app'.last_delegates ≡ app.last_delegates
    pub transfers_kept : 0 < app.last_transfers → app'.last_transfers ≡ app.last_transfers

  pub Keeps-refl : (app : App F) → Keeps app app
  Keeps-refl app = record {
    configured = refl;
    delegates_kept = λ h. refl;
    transfers_kept = λ h. refl;
  }

  pub Keeps-trans : {a b c : App F} → Keeps a b → Keeps b c → Keeps a c
  Keeps-trans {a} {b} {c} h k = record {
    configured = k.configured ∙ ap (λ x. with_caches x c) h.configured;
    delegates_kept =
        λ p. let e = h.delegates_kept p in k.delegates_kept (subst (λ n. 0 < n) (sym e) p) ∙ e;
    transfers_kept =
        λ p. let e = h.transfers_kept p in k.transfers_kept (subst (λ n. 0 < n) (sym e) p) ∙ e;
  }

  delegates-Keeps :
      (app : App F) (db : Db) (failure : Option Error)
      → Keeps app (db_get_delegate_start_block app db failure).1
  unfolding db_get_delegate_start_block
  delegates-Keeps app db failure = elim (Bool-cases (eqb app.last_delegates 0)) [
    | inr q ↦ rw (db_get_delegate_start_block, q) (Keeps-refl app)
    | inl q ↦ elim (Option-cases failure) [
      | inr (e, p) ↦ rw (db_get_delegate_start_block, q, p) (Keeps-refl app)
      | inl p ↦
          rw (db_get_delegate_start_block, q, p)
            (record {
              configured = refl;
              delegates_kept = λ h. absurd (ground arith);
              transfers_kept = λ h. refl;
            })
    ]
  ]

  transfers-Keeps :
      (app : App F) (db : Db) (failure : Option Error)
      → Keeps app (db_get_sh_tkn_transfer_start_block app db failure).1
  unfolding db_get_sh_tkn_transfer_start_block
  transfers-Keeps app db failure = elim (Bool-cases (eqb app.last_transfers 0)) [
    | inr q ↦ rw (db_get_sh_tkn_transfer_start_block, q) (Keeps-refl app)
    | inl q ↦ elim (Option-cases failure) [
      | inr (e, p) ↦ rw (db_get_sh_tkn_transfer_start_block, q, p) (Keeps-refl app)
      | inl p ↦
          rw (db_get_sh_tkn_transfer_start_block, q, p)
            (record {
              configured = refl;
              delegates_kept = λ h. refl;
              transfers_kept = λ h. absurd (ground arith);
            })
    ]
  ]

  module _ (app : App F) (db : Db) (e₀ e₁ : Option Error) where
    pub latest-Keeps : Keeps app (db_get_latest_block app db e₀ e₁).1
    unfolding db_get_latest_block
    latest-Keeps =
        Keeps-trans (delegates-Keeps app db e₀)
          (transfers-Keeps (db_get_delegate_start_block app db e₀).1 db e₁)

    pub on_balances-Keeps : (body : Result Payload) → Keeps app (on_balances app db e₀ e₁ body).1
    unfolding on_balances
    on_balances-Keeps (err e) = Keeps-refl app
    on_balances-Keeps (ok req) = elim (Option-cases (check_addrs req.addresses)) [
      | inl q ↦ rw (on_balances, q) (Keeps-refl app)
      | inr (addrs, q) ↦ rw (on_balances, q) latest-Keeps
    ]

module _ {F : Type 0} (float : Float F) (app : App F) where
  -- A renewal that succeeds keeps the app.
  abbrev Renewed : Option (Checked (App F)) → Type 0
  Renewed none = Unit
  Renewed (some (rejected status message)) = Unit
  Renewed (some (accepted app')) = Keeps app app'

  renew-Renewed :
      (endpoint : Endpoint float) (now : ℤ)
      → Renewed (renew float endpoint (record app { etherfi_apy_ts = now }))
  unfolding renew
  renew-Renewed (err e) now = tt
  renew-Renewed (ok (status, decoded)) now = elim (Bool-cases (eqb status 200)) [
    | inr q ↦ rw (renew, q) tt
    | inl q ↦ elim (Result-cases decoded) [
      | inr (e, p) ↦ rw (renew, q, p) tt
      | inl (aprs, p) ↦ elim (Option-cases (last float aprs)) [
        | inl r ↦ rw (renew, q, p, r) tt
        | inr (apr, r) ↦ elim (Result-cases (float.parse apr)) [
          | inr (e, s) ↦ rw (renew, q, p, r, s) tt
          | inl (f, s) ↦
              rw (renew, q, p, r, s)
                (record {
                  configured = refl;
                  delegates_kept = λ h. refl;
                  transfers_kept = λ h. refl;
                })
        ]
      ]
    ]
  ]

  pub stamped-Keeps : (now : ℤ) → Keeps app (record app { etherfi_apy_ts = now })
  stamped-Keeps now = record {
    configured = refl;
    delegates_kept = λ h. refl;
    transfers_kept = λ h. refl;
  }

  -- The app after a call of `onEtherfiApy` at a time.
  abbrev pub left_by : ℤ → Option (Checked Text × App F) → App F
  left_by now none = record app { etherfi_apy_ts = now }
  left_by now (some (res, app')) = app'

  respond-Keeps :
      (now : ℤ) (r : Option (Checked (App F)))
      → Renewed r
      → Keeps app (left_by now (respond float (record app { etherfi_apy_ts = now }) r))
  respond-Keeps now none h = stamped-Keeps now
  respond-Keeps now (some (rejected status message)) h = stamped-Keeps now
  respond-Keeps now (some (accepted app')) h = h

  pub on_etherfi_apy-Keeps :
      (now : ℤ) (endpoint : Endpoint float)
      → Keeps app (left_by now (on_etherfi_apy float now endpoint app))
  unfolding on_etherfi_apy
  on_etherfi_apy-Keeps now endpoint =
      elim (Bool-cases (ltb_ℤ (pos 43_200) (int64 (now -ℤ app.etherfi_apy_ts)))) [
        | inr q ↦ rw (on_etherfi_apy, q) (Keeps-refl app)
        | inl q ↦
            rw (on_etherfi_apy, q)
              (respond-Keeps now (renew float endpoint (record app { etherfi_apy_ts = now }))
                (renew-Renewed endpoint now))
      ]
