-- ===== src/Tests/Requests.antt =====
-- Requests.
use d8x_etherfi.Base.{◌≡◌, refl, [], ◌∷◌, none, some, ok, err, arith}
use d8x_etherfi.Base.Int.{ℤ, pos, ◌-ℤ◌, int64}
use d8x_etherfi.Etherfi.Store.{Db, db_get_latest_block}
use d8x_etherfi.Api.{accepted, rejected, Atoi, on_get_balances, Float, on_etherfi_apy, renew}
use d8x_etherfi.Api.Requests.{Admits, on_get_balances-Admits, on_get_balances-ignores}
use d8x_etherfi.Api.Apy.{on_etherfi_apy-cached}
use d8x_etherfi.Tests.World.{app, text_a}

abbrev db : Db
db = record { sh_tkn_transfer = []; delegates = [] }

-- One digit, and else an error with the number 0.
abbrev atoi : Atoi
atoi [] = (pos 0, some "invalid syntax")
atoi (c ∷ []) = (pos 3, none)
atoi (c ∷ d ∷ s) = (pos 0, some "invalid syntax")

on_get_balances-Admits_example :
    Admits
      (db_get_latest_block app db none none).0
      (text_a ∷ [])
      (on_get_balances app db none none atoi (b'3' ∷ []) (text_a ∷ [])).0
on_get_balances-Admits_example =
    on_get_balances-Admits app db none none atoi (b'3' ∷ []) (text_a ∷ [])

on_get_balances-ignores_example :
    on_get_balances app db none none atoi (b'3' ∷ []) []
    ≡ on_get_balances app db none none atoi [] []
on_get_balances-ignores_example = on_get_balances-ignores app db none none atoi (b'3' ∷ []) [] refl

-- Whole numbers in the place of floats.
abbrev pub whole : Float ℤ
whole = record {
  parse = λ s. ok (pos 5);
  quo = λ a b. a;
  mul = λ a b. a;
  round = λ a. a;
  nine_tenths = pos 1;
  twenty_nine_of_32 = pos 1;
  hundred = pos 1;
  format = λ a. text_a;
}

first_answer :
    on_etherfi_apy whole (pos 50_000) (err "timeout") app
    ≡ some (rejected 500 "etherfi endpoint unavailable", record app { etherfi_apy_ts = pos 50_000 })
unfolding on_etherfi_apy renew int64 ◌-ℤ◌
first_answer = refl

on_etherfi_apy-cached_example :
    on_etherfi_apy whole
      (pos 90_000)
      (ok (200, ok (text_a ∷ [])))
      (record app { etherfi_apy_ts = pos 50_000 })
    ≡ some (accepted text_a, record app { etherfi_apy_ts = pos 50_000 })
unfolding int64 ◌-ℤ◌
on_etherfi_apy-cached_example =
    on_etherfi_apy-cached whole 50_000 90_000 app (record app { etherfi_apy_ts = pos 50_000 })
      (rejected 500 "etherfi endpoint unavailable") (err "timeout") (ok (200, ok (text_a ∷ [])))
      refl first_answer (omega arith) (omega arith)
