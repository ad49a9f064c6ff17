-- ===== src/Tests/World.antt =====
-- A small world: the state counts the calls, and every third call to a node fails.
use d8x_etherfi.Base.{ℕ, ◌+◌, ◌%◌, List, [], ◌∷◌, map, Text, Result, ok, err, eqb, if◌then◌else◌}
use d8x_etherfi.Base.{inl, inr, sym, Bool-cases, ok_injective, ◌≡◌, ◌%◌}
use d8x_etherfi.Base.Int.{ℤ, pos}
use d8x_etherfi.Base.Dict.{Dict}
use d8x_etherfi.Chain.{Address, Geth, Pool, Node, Call}
use d8x_etherfi.Rounds.Chunks.{slice}
use d8x_etherfi.Etherfi.App.{App}
use d8x_etherfi.Etherfi.Queries.{Env}
use d8x_etherfi.Etherfi.Combine

abbrev pub first_char : Text → ℕ
first_char [] = 0
first_char (c ∷ s) = c

-- An address of the tests is one character.
abbrev pub geth : Geth
geth = record { hex = λ a. a ∷ []; hex_to_address = first_char }

-- Two clients in turn; the wait takes no call.
abbrev pub pool : Pool ℕ ℕ
pool = record {
  get_rpc = λ w. w % 2;
  get_next_rpc = λ w. ((w + 1) % 2, w + 1);
  wait_for_token = λ c w. w;
}

abbrev pub flaky : {A : Type 0} → A → ℕ → Result A × ℕ
flaky a w = if eqb (w % 3) 0 then (err "busy", w + 1) else (ok a, w + 1)

pub flaky-ok : {A : Type 0} (x y : A) (w : ℕ) → (flaky x w).0 ≡ ok y → y ≡ x
flaky-ok x y w e = elim (Bool-cases (eqb (w % 3) 0)) [
  | inl q ↦ cc (rw q at e)
  | inr q ↦ sym (ok_injective (rw q at e))
]

abbrev pub held : Address → ℤ
held a = pos (a % 10)

abbrev pub answer : Call Text → ℤ
answer (Call.balance_of c a) = held a
answer (Call.get_available_cash c i a) = pos 7

abbrev pub accounts : List Address
accounts = b'b' ∷ b'c' ∷ []

abbrev pub node : Node ℕ ℕ Text ℕ Address ℕ
node = record {
  new_contract = λ abi a. ok a;
  new_caller = λ c. ok c;
  call = λ c b calls. flaky (map answer calls);
  new_erc20 = λ a c. ok a;
  erc20_balance_of = λ e b a. flaky (pos 1000);
  erc20_total_supply = λ e b. flaky (pos 15);
  erc20_decimals = λ e b. flaky 18;
  new_manager = λ c a. a;
  count_active_perp_accounts = λ m b i. flaky 2;
  get_active_perp_accounts_by_chunks = λ m b i from to. flaky (slice from to accounts);
}

abbrev pub env : Env ℕ ℕ Text ℕ Address ℕ
env = record { geth = geth; pool = pool; node = node; to_dec_n = λ x d. x }

abbrev pub app : App ℤ
app = record {
  genesis = 5;
  perp_proxy = b'p';
  pool_share_tkn_addr = b's';
  pool_tkn_addr = b't';
  pool_id = 1;
  perp_ids = pos 100_001 ∷ [];
  pool_tkn_decimals = 0;
  chain_id = pos 42;
  sdk_proxy_addr = b'p';
  last_delegates = 0;
  last_transfers = 0;
  etherfi_apy = pos 0;
  etherfi_apy_ts = pos 0;
}

abbrev pub float : Combine.Float ℤ
float = record { zero = pos 0; dec_n_to_float = λ x d. x }

-- Go's order of a map, here that of the list.
abbrev pub range : Dict Text ℤ → List (Text × ℤ)
range d = d

abbrev pub text_a : Text
text_a = b'a' ∷ []

abbrev pub text_b : Text
text_b = b'b' ∷ []

abbrev pub text_c : Text
text_c = b'c' ∷ []

abbrev pub addrs : List Text
addrs = text_a ∷ text_b ∷ []

abbrev pub traders : Dict Text ℤ
traders = (text_b, pos 7) ∷ (text_c, pos 93) ∷ []
