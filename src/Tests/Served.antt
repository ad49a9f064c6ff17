-- ===== src/Tests/Served.antt =====
-- Requests to the handlers over the nodes of the small world.
use d8x_etherfi.Base.{
  Text, Option, Result, ℕ, zero, suc, ◌%◌, ◌≡◌, ◌≢◌, refl, ap, List, [], ◌∷◌, ◌++◌, map, none, some,
  ok, arith, text_beq,
}
use mathlib.Core.Bool.{false≢true}
use d8x_etherfi.Base.Int.{ℤ, div, pos}
use d8x_etherfi.Chain.{Call}
use d8x_etherfi.Utils.Address.{to_lower}
use d8x_etherfi.Etherfi.Store.{db_get_share_token_holders, db_find_strategy_delegates}
use d8x_etherfi.Etherfi.Request.{balances}
use d8x_etherfi.Tests.Reports.{range-runs}
use d8x_etherfi.Tests.World.{env, app, float, range, flaky, flaky-ok, answer, addrs, text_a, text_c}
use d8x_etherfi.Etherfi.Combine.{Balance}
use d8x_etherfi.Utils.Conv.{BigFloat}
use d8x_etherfi.Api.{Atoi}
use d8x_etherfi.Utils.Payload.{Payload}
use d8x_etherfi.Api.Serve.{get_balances, post_balances}
use d8x_etherfi.Api.Serve.Told.{PostAnswer, post_balances-PostAnswer}
use d8x_etherfi.Api.Serve.Sound.{Served, get_balances-Served}
use d8x_etherfi.Api.Holders.{
  HolderResponse, HolderAnswer, on_holder_contracts, on_holder_contracts-HolderAnswer,
}
use d8x_etherfi.Tests.Answers.{
  in_turn, in_turn-IsFair, synced_app, ledger, reserves, solvent, c≢a, db, answers, there,
}

-- No text is a number.
abbrev pub no_number : Atoi
no_number s = (pos 0, some "invalid syntax")

-- A row of zeros.
abbrev zeros : ℕ → Text
zeros zero = []
zeros (suc n) = b'0' ∷ zeros n

abbrev pub encode : List (Balance ℤ) → Result Text
encode balances = ok (b'[' ∷ b']' ∷ [])

-- A valid address that ends with the character.
abbrev ends_with : ℕ → Text
ends_with c = b'0' ∷ b'x' ∷ (zeros 39 ++ c ∷ [])

-- One address is in upper case.
abbrev pub post_request : Payload
post_request = record { block_number = 9; addresses = ends_with b'B' ∷ ends_with b'c' ∷ [] }

lowered_apart : to_lower (ends_with b'B') ≢ to_lower (ends_with b'c')
unfolding to_lower
lowered_apart e = false≢true (ap (λ s. text_beq s (to_lower (ends_with b'c'))) e)

post_balances-PostAnswer_example :
    PostAnswer env synced_app float range post_request ledger reserves there
      ((lowered_apart, tt), (tt, tt))
      ((text_c, text_a) ∷ [])
      encode
      (post_balances env db float range in_turn answers encode synced_app none none
        (ok post_request)
        5).0
unfolding db_find_strategy_delegates
post_balances-PostAnswer_example =
    post_balances-PostAnswer env synced_app float range post_request ledger reserves there
      ((lowered_apart, tt), (tt, tt)) ((text_c, text_a) ∷ []) encode in_turn in_turn-IsFair db
      answers none none 5 (omega arith) (omega arith) (omega arith) refl

get_balances-Served_example :
    Served env synced_app float range range-runs 9 ledger reserves
      (λ a. a % 10)
      15
      addrs
      solvent
      encode
      (get_balances env db float range in_turn answers encode synced_app none none no_number [] []
        5).0
unfolding db_get_share_token_holders db_find_strategy_delegates
get_balances-Served_example =
    get_balances-Served env synced_app float range range-runs 9 ledger reserves (λ a. a % 10) 15
      addrs solvent encode in_turn in_turn-IsFair ((text_c, text_a) ∷ []) (c≢a, tt) db answers none
      none no_number [] 5 (omega arith) (omega arith) refl refl refl

abbrev text_t : Text
text_t = b't' ∷ []

-- Numbers are rounded down.
abbrev pub big : BigFloat ℤ ℤ
big = record { set_int = λ x. x; quo = div; float64 = λ x. x }

t_parsed : ok (to_lower text_t) ≡ ok text_t
unfolding to_lower
t_parsed = refl

abbrev pub encode_holders : HolderResponse ℤ → Result Text
encode_holders response = ok (b'{' ∷ b'}' ∷ [])

agreed :
    (block : Option ℤ) (caller : ℕ) (calls : List (Call Text)) (w : ℕ) (xs : List ℤ)
    → (flaky (map answer calls) w).0 ≡ ok xs
    → xs ≡ map answer calls
agreed block caller calls w xs = flaky-ok (map answer calls) xs w

on_holder_contracts-HolderAnswer_example :
    HolderAnswer env app big encode_holders
      (λ block. answer)
      agreed
      text_t
      t_parsed
      (ok none)
      (on_holder_contracts env app big encode_holders no_number [] 5).0
on_holder_contracts-HolderAnswer_example =
    on_holder_contracts-HolderAnswer env app big encode_holders (λ block. answer) agreed text_t
      t_parsed no_number [] 5
