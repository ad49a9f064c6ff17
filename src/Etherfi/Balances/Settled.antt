-- ===== src/Etherfi/Balances/Settled.antt =====
-- The handler's end in one form: what both goroutines found, or an error of one of the three results.
use d8x_etherfi.Base.{◌≡◌, refl, ◌⊎◌, inl, inr, List, some, Text, Result, ok, err, Error}
use d8x_etherfi.Base.Int.{ℤ}
use d8x_etherfi.Base.Dict.{Dict}
use d8x_etherfi.Etherfi.Delegates.{reassign, reassign_trader_balances}
use d8x_etherfi.Etherfi.Balances.{
  Handler, receiving, returned, Config, Runs, start, trader_messages, lp_messages,
}
use d8x_etherfi.Etherfi.Balances.Messages.{Final, handler-Outcome}

module _ (queried : Result (Dict Text ℤ × ℤ)) (found : Result (List (Text × Text)))
    (lps : Result (List ℤ × ℤ)) where
  -- An error of one of the three results was returned.
  abbrev pub IsReturned : Handler → Type 0
  IsReturned h =
      (e : Error) × (h ≡ returned e) × ((queried ≡ err e) ⊎ ((found ≡ err e) ⊎ (lps ≡ err e)))

abbrev pub Settled :
    Result (Dict Text ℤ × ℤ) → Result (List (Text × Text)) → Result (List ℤ × ℤ) → Handler → Type 0
Settled (ok (bal, tot)) (ok pairs) (ok (balcs, supply)) h =
    h
    ≡ receiving 0 (record { trader_bal = reassign pairs bal; total = some tot })
        (record { sh_tkn_bal = balcs; sh_tkn_total = some supply })
Settled queried found lps h = IsReturned queried found lps h

-- In whatever order the messages came.
pub handler-Settled :
    (queried : Result (Dict Text ℤ × ℤ)) (found : Result (List (Text × Text)))
    (lps : Result (List ℤ × ℤ)) (d : Config)
    → Runs (start (trader_messages queried found) (lp_messages lps)) d
    → Final d.handler
    → Settled queried found lps d.handler
unfolding trader_messages lp_messages reassign_trader_balances
handler-Settled (ok (bal, tot)) (ok pairs) (ok (balcs, s)) d r f =
    handler-Outcome (ok (bal, tot)) (ok pairs) (ok (balcs, s)) d r f
handler-Settled (ok (bal, tot)) (ok pairs) (err g) d r f =
    (g, (handler-Outcome (ok (bal, tot)) (ok pairs) (err g) d r f).0, inr (inr refl))
handler-Settled (ok (bal, tot)) (err e) (ok (balcs, s)) d r f =
    (e, (handler-Outcome (ok (bal, tot)) (err e) (ok (balcs, s)) d r f).0, inr (inl refl))
handler-Settled (ok (bal, tot)) (err e) (err g) d r f =
    elim (handler-Outcome (ok (bal, tot)) (err e) (err g) d r f).0 [
      | inl h ↦ (e, h, inr (inl refl))
      | inr h ↦ (g, h, inr (inr refl))
    ]
handler-Settled (err e) (ok pairs) (ok (balcs, s)) d r f =
    (e, (handler-Outcome (err e) (ok pairs) (ok (balcs, s)) d r f).0, inl refl)
handler-Settled (err e) (err b) (ok (balcs, s)) d r f =
    (e, (handler-Outcome (err e) (err b) (ok (balcs, s)) d r f).0, inl refl)
handler-Settled (err e) (ok pairs) (err g) d r f =
    elim (handler-Outcome (err e) (ok pairs) (err g) d r f).0 [
      | inl h ↦ (e, h, inl refl)
      | inr h ↦ (g, h, inr (inr refl))
    ]
handler-Settled (err e) (err b) (err g) d r f =
    elim (handler-Outcome (err e) (err b) (err g) d r f).0 [
      | inl h ↦ (e, h, inl refl)
      | inr h ↦ (g, h, inr (inr refl))
    ]
