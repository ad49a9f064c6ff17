-- ===== src/Api/Apy.antt =====
-- How often the endpoint for the yield is asked.
use d8x_etherfi.Base.{
  ℕ, ◌+◌, ◌-◌, ◌≤◌, ◌≡◌, refl, ap, sym, ◌∙◌, Option, none, some, Text, ok, err, true, false, arith,
  inl, inr, Bool-cases, Option-cases, Result-cases, eqb,
}
use mathlib.Core.Option.{some-injective}
use d8x_etherfi.Base.Int.{ℤ, pos, ◌-ℤ◌, ltb_ℤ, int64, int64-pos, int_laws}
use d8x_etherfi.Etherfi.App.{App}
use d8x_etherfi.Api.{
  Checked, accepted, rejected, Float, Endpoint, renew, on_etherfi_apy, last, respond,
}

module _ {F : Type 0} (float : Float F) where
  -- An outcome of the renewal keeps the timestamp of the app that it was given.
  abbrev Stamped : ℤ → Option (Checked (App F)) → Type 0
  Stamped ts none = Unit {0}
  Stamped ts (some (rejected s m)) = Unit {0}
  Stamped ts (some (accepted app)) = app.etherfi_apy_ts ≡ ts

  renew-Stamped :
      (endpoint : Endpoint float) (app : App F)
      → Stamped app.etherfi_apy_ts (renew float endpoint app)
  unfolding renew
  renew-Stamped (err e) app = tt
  renew-Stamped (ok (status, decoded)) app = elim (Bool-cases (eqb status 200)) [
    | inr q ↦ rw (renew, q) tt
    | inl q ↦ elim (Result-cases decoded) [
      | inr (e, p) ↦ rw (renew, q, p) tt
      | inl (aprs, p) ↦ elim (Option-cases (last float aprs)) [
        | inl r ↦ rw (renew, q, p, r) tt
        | inr (apr, r) ↦ elim (Result-cases (float.parse apr)) [
          | inr (e, s) ↦ rw (renew, q, p, r, s) tt
          | inl (f, s) ↦ rw (renew, q, p, r, s) refl
        ]
      ]
    ]
  ]

  respond_keeps :
      (r : Option (Checked (App F))) (stamped app' : App F) (answer : Checked Text)
      → Stamped stamped.etherfi_apy_ts r
      → respond float stamped r ≡ some (answer, app')
      → app'.etherfi_apy_ts ≡ stamped.etherfi_apy_ts
  respond_keeps none stamped app' answer h e = cc
  respond_keeps (some (rejected s m)) stamped app' answer h e =
      ap (λ p. p.1.etherfi_apy_ts) (sym (some-injective _ _ e))
  respond_keeps (some (accepted a)) stamped app' answer h e =
      ap (λ p. p.1.etherfi_apy_ts) (sym (some-injective _ _ e)) ∙ h

  within_hours :
      (t now : ℕ)
      → t ≤ now
      → now ≤ t + 43_200
      → ltb_ℤ (pos 43_200) (int64 (pos now -ℤ pos t)) ≡ false
  within_hours t now h k =
      let gap : pos now -ℤ pos t ≡ pos (now - t) = omega int_laws in
      rw (gap, int64-pos (now - t) (omega arith)) (ground arith)

  -- Once a call at the time `t` has asked the endpoint, whether that failed or not, every call in the
  -- 12 hours that follow is answered with the yield that this one left, whatever the endpoint holds.
  pub on_etherfi_apy-cached :
      (t now : ℕ) (app app' : App F) (answer : Checked Text) (before after : Endpoint float)
      → ltb_ℤ (pos 43_200) (int64 (pos t -ℤ app.etherfi_apy_ts)) ≡ true
      → on_etherfi_apy float (pos t) before app ≡ some (answer, app')
      → t ≤ now
      → now ≤ t + 43_200
      → on_etherfi_apy float (pos now) after app'
        ≡ some (accepted (float.format app'.etherfi_apy), app')
  unfolding on_etherfi_apy
  on_etherfi_apy-cached t now app app' answer before after asked e h k =
      let stamped : App F = record app { etherfi_apy_ts = pos t } in
      let at : app'.etherfi_apy_ts ≡ pos t =
        respond_keeps (renew float before stamped) stamped app' answer
          (renew-Stamped before stamped) (rw (on_etherfi_apy, asked) at e) in
      let recent : ltb_ℤ (pos 43_200) (int64 (pos now -ℤ app'.etherfi_apy_ts)) ≡ false =
        rw at (within_hours t now h k) in
      rw (on_etherfi_apy, recent)
