-- ===== src/Tests/Limits.antt =====
-- The rate limit, the rotation of the nodes, and addresses.
use d8x_etherfi.Base.{
  ℕ, zero, suc, ◌+◌, ◌*◌, ◌/◌, ◌^◌, ◌≤◌, ◌<◌, ◌≡◌, ◌≢◌, ◌↔◌, refl, List, [], ◌∷◌, Option, none,
  some, Text, Result, ok, err, Error, arith, length, get_elem?, nat_eq, true,
}
use d8x_etherfi.Base.Int.{pos, pos_part, ◌+ℤ◌, ◌-ℤ◌, int64}
use d8x_etherfi.Base.Dict.{lookup}
use d8x_etherfi.Utils.Address.{is_valid_evm_addr, to_lower}
use d8x_etherfi.Utils.Address.Number.{number, to_lower_iff, to_lower_valid}
use d8x_etherfi.Utils.TokenBucket.{Float, TokenBucket, tokens_to_add, take_token, wait_for_token}
use d8x_etherfi.Utils.TokenBucket.Bounds.{IsValid, IsBounded, take_token-IsValid}
use d8x_etherfi.Utils.TokenBucket.Rate.{takes, takes_rate}
use d8x_etherfi.Utils.TokenBucket.Wait.{wait_for_token_ends}
use d8x_etherfi.Utils.RpcHandler.{RpcHandler, Client, init, dial_all}
use d8x_etherfi.Utils.RpcHandler.Rotation.{IsReady, rotate, rotate_reaches, init-IsReady}

-- Fractions of a numerator and a denominator.
abbrev fractions : Float (ℕ × ℕ)
fractions = record {
  of_int = λ z. (pos_part z, 1);
  billion = (1_000_000_000, 1);
  quo = λ x y. (x.0 * y.1, x.1 * y.0);
  mul = λ x y. (x.0 * y.0, x.1 * y.1);
  to_int = λ x. pos (x.0 / x.1);
}

-- Two tokens a second, at most three kept.
abbrev bucket : TokenBucket (ℕ × ℕ)
bucket = record { tokens = pos 1; capacity = pos 3; refill_rate = (2, 1); last_refill = 1000 }

bucket-IsValid : IsValid bucket
bucket-IsValid = record {
  nonneg = refl;
  capacity_nonneg = refl;
  within = omega arith;
  room = omega arith;
}

bucket-IsBounded : IsBounded fractions (2, 1) 2
unfolding tokens_to_add ◌-ℤ◌
bucket-IsBounded = record { slow = omega arith; at_most = λ now last h. ground arith }

-- At once, after a moment, and after a second.
takes_three :
    takes fractions 2 (1000 ∷ 2000 ∷ 1_000_002_000 ∷ []) bucket
    ≡ (2, record bucket { tokens = pos 1; last_refill = 1_000_002_000 })
unfolding takes take_token tokens_to_add ◌-ℤ◌ ◌+ℤ◌ int64
takes_three = refl

takes_rate_example :
    (takes fractions 2 (1000 ∷ 2000 ∷ 1_000_002_000 ∷ []) bucket).0 * 10 ^ 9 + 2 * 1000
    ≤ 1 * 10 ^ 9 + 2 * 1_000_002_000
takes_rate_example =
    takes_rate fractions 2 (1000 ∷ 2000 ∷ 1_000_002_000 ∷ []) 1_000_002_000 bucket (omega arith)
      bucket-IsBounded bucket-IsValid (omega arith, (omega arith, (omega arith, omega arith)))

take_token-IsValid_example : IsValid (take_token fractions 1_000_002_000 bucket).1
take_token-IsValid_example =
    take_token-IsValid fractions 2 1_000_002_000 (omega arith) bucket bucket-IsBounded
      bucket-IsValid (omega arith)

-- A clock that shows one second more at its fourth reading.
abbrev clock : ℕ → ℕ
clock zero = 1000
clock (suc zero) = 1000
clock (suc (suc zero)) = 1000
clock (suc (suc (suc n))) = 1_000_001_000

clock-le : (i : ℕ) → 1000 ≤ clock i
clock-le zero = omega arith
clock-le (suc zero) = omega arith
clock-le (suc (suc zero)) = omega arith
clock-le (suc (suc (suc i))) = omega arith

clock-soon : (i : ℕ) → clock i < 2 ^ 63
clock-soon zero = omega arith
clock-soon (suc zero) = omega arith
clock-soon (suc (suc zero)) = omega arith
clock-soon (suc (suc (suc i))) = omega arith

abbrev empty_bucket : TokenBucket (ℕ × ℕ)
empty_bucket = record bucket { tokens = pos 0 }

empty_bucket-IsValid : IsValid empty_bucket
empty_bucket-IsValid = record {
  nonneg = refl;
  capacity_nonneg = refl;
  within = omega arith;
  room = omega arith;
}

brings : 0 < pos_part (tokens_to_add fractions (2, 1) (clock 3) 1000)
unfolding tokens_to_add ◌-ℤ◌
brings = ground arith

wait_for_token_ends_example :
    (out : ℕ × TokenBucket (ℕ × ℕ)) × (wait_for_token fractions clock 5 0 empty_bucket ≡ some out)
wait_for_token_ends_example =
    wait_for_token_ends fractions 2 clock 5 0 3 empty_bucket clock-le clock-soon bucket-IsBounded
      empty_bucket-IsValid (omega arith) (omega arith) (omega arith) brings

abbrev handler : RpcHandler (ℕ × ℕ)
handler = record {
  rpc_clients = 10 ∷ 20 ∷ 30 ∷ [];
  last_idx = 2;
  buckets = (10, bucket) ∷ (20, bucket) ∷ (30, empty_bucket) ∷ [];
}

-- A url is dialled to the client of its length, and an empty one fails.
abbrev dial : Text → Result Client
dial [] = err "no url"
dial (c ∷ s) = ok (length s)

abbrev new_handler : RpcHandler (ℕ × ℕ)
new_handler = record { rpc_clients = []; last_idx = 0; buckets = [] }

abbrev urls : List Text
urls = (b'a' ∷ []) ∷ [] ∷ (b'b' ∷ b'c' ∷ []) ∷ []

abbrev ready_handler : RpcHandler (ℕ × ℕ) × Option Error
ready_handler = init dial clock urls (pos 3) (2, 1) new_handler

init-IsReady_example :
    (ready_handler.1 ≡ none → IsReady ready_handler.0)
    × (ready_handler.1 ≢ none → dial_all dial urls ≡ [])
init-IsReady_example = init-IsReady dial clock urls (pos 3) (2, 1) new_handler refl

handler_bucket :
    (i : ℕ) (rpc : Client)
    → get_elem? handler.rpc_clients i ≡ some rpc
    → (tb : TokenBucket (ℕ × ℕ)) × (lookup rpc handler.buckets ≡ some tb)
handler_bucket zero rpc e = (bucket, ground arith)
handler_bucket (suc zero) rpc e = (bucket, ground arith)
handler_bucket (suc (suc zero)) rpc e = (empty_bucket, ground arith)
handler_bucket (suc (suc (suc i))) rpc e = cc

handler-IsReady : IsReady handler
handler-IsReady = record { in_list = omega arith; has_bucket = handler_bucket }

rotate_reaches_example :
    (n : ℕ) × (n < 3) × (rotate (suc n) handler ≡ some (record handler { last_idx = 1 }))
rotate_reaches_example = rotate_reaches handler 1 handler-IsReady (omega arith)

-- 0x, and forty times one digit.
abbrev many : ℕ → ℕ → Text
many zero c = []
many (suc n) c = c ∷ many n c

abbrev upper_addr : Text
upper_addr = b'0' ∷ b'x' ∷ many 40 b'A'

abbrev lower_addr : Text
lower_addr = b'0' ∷ b'x' ∷ many 40 b'a'

upper_valid : is_valid_evm_addr upper_addr ≡ true
unfolding is_valid_evm_addr
upper_valid = refl

lower_valid : is_valid_evm_addr lower_addr ≡ true
unfolding is_valid_evm_addr
lower_valid = refl

to_lower_iff_example :
    (to_lower upper_addr ≡ to_lower lower_addr) ↔ (number upper_addr ≡ number lower_addr)
to_lower_iff_example = to_lower_iff upper_addr lower_addr upper_valid lower_valid

to_lower_valid_example :
    (is_valid_evm_addr (to_lower upper_addr) ≡ true)
    × (number (to_lower upper_addr) ≡ number upper_addr)
to_lower_valid_example = to_lower_valid upper_addr upper_valid
