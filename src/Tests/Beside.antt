-- ===== src/Tests/Beside.antt =====
-- Requests whose goroutines run side by side with others.
use d8x_etherfi.Base.{ℕ, ◌+◌, ◌%◌, refl, [], ◌∷◌, arith}
use d8x_etherfi.Etherfi.Request.Sound.{Answer}
use d8x_etherfi.Etherfi.Request.Told.{Told}
use d8x_etherfi.Etherfi.Store.{db_get_share_token_holders, db_find_strategy_delegates}
use d8x_etherfi.Etherfi.Request.Interleaved.{Shared, interleaved}
use d8x_etherfi.Etherfi.Request.Interleaved.Holders.{interleaved-Answer}
use d8x_etherfi.Etherfi.Request.Interleaved.Lines.{interleaved-Told}
use d8x_etherfi.Tests.Reports.{range-runs}
use d8x_etherfi.Tests.World.{env, float, range, addrs, text_a, text_b, text_c}
use d8x_etherfi.Tests.Answers.{
  synced_app, in_turn, in_turn-IsFair, ledger, reserves, solvent, there, c≢a, b≢c, db, answers,
}

-- Another goroutine makes two calls before the next one, and then a call now and then.
abbrev at_traders : Shared ℕ
at_traders = (5, (λ w. w + 2) ∷ (λ w. w) ∷ (λ w. w + 1) ∷ [])

abbrev at_lps : Shared ℕ
at_lps = (5, (λ w. w + 1) ∷ (λ w. w + 7) ∷ [])

abbrev at_handler : Shared ℕ
at_handler = (30, [])

interleaved-Answer_example :
    Answer env synced_app float range range-runs 9 ledger reserves
      (λ a. a % 10)
      15
      addrs
      solvent
      (interleaved env synced_app db float range in_turn answers at_traders at_lps at_handler
        (record { block_number = 9; addresses = [] }))
unfolding db_get_share_token_holders db_find_strategy_delegates
interleaved-Answer_example =
    interleaved-Answer env synced_app float range range-runs 9 ledger reserves (λ a. a % 10) 15
      addrs solvent in_turn in_turn-IsFair ((text_c, text_a) ∷ []) (c≢a, tt) db answers at_traders
      at_lps at_handler refl refl

interleaved-Told_example :
    Told env synced_app float range 9 ledger reserves there
      (text_b ∷ text_c ∷ [])
      ((b≢c, tt), (tt, tt))
      ((text_c, text_a) ∷ [])
      (interleaved env synced_app db float range in_turn answers at_traders at_lps at_handler
        (record { block_number = 9; addresses = text_b ∷ text_c ∷ [] }))
unfolding db_find_strategy_delegates
interleaved-Told_example =
    interleaved-Told env synced_app float range 9 ledger reserves there (text_b ∷ text_c ∷ [])
      ((b≢c, tt), (tt, tt)) ((text_c, text_a) ∷ []) in_turn in_turn-IsFair db answers at_traders
      at_lps at_handler (omega arith) refl
