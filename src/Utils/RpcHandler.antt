-- ===== src/Utils/RpcHandler.antt =====
-- internal/utils/rpchandler.go. A client is a pointer, here its number; a bucket stands in the map
-- that points to it. `GetNextRpc` runs under the handler's mutex, so it is one step.
pub mod Rotation
use d8x_etherfi.Base.{
  ℕ, zero, suc, ◌+◌, ◌%◌, ◌≡◌, List, [], ◌∷◌, Option, none, some, Text, Result, ok, err, Error,
  length, get_elem?, nat_eq, if◌then◌else◌, eqb,
}
use d8x_etherfi.Base.Int.{ℤ}
use d8x_etherfi.Base.Dict.{Dict, lookup, insert}
use d8x_etherfi.Utils.TokenBucket.{Float, TokenBucket, new_token_bucket}
use d8x_etherfi.Utils.TokenBucket

abbrev pub Client : Type 0
Client = ℕ

pub record RpcHandler (F : Type 0) : Type 0 where
  pub rpc_clients : List Client
  pub last_idx : ℕ
  pub buckets : Dict Client (TokenBucket F)

-- `ethclient.Dial` over the urls; one that fails is skipped.
unfoldable pub dial_all : (Text → Result Client) → List Text → List Client
dial_all dial [] = []
dial_all dial (url ∷ urls) =
    let rest = dial_all dial urls in elim (dial url) [ ok rpc ↦ rpc ∷ rest | err _ ↦ rest ]

module _ {F : Type 0} where
  -- A bucket for each client, made at the clock's readings from the `k`th on.
  unfoldable pub make_buckets :
      (ℕ → ℕ) → ℕ → ℤ → F → List Client → Dict Client (TokenBucket F) → Dict Client (TokenBucket F)
  make_buckets clock k capacity refill_rate [] buckets = buckets
  make_buckets clock k capacity refill_rate (rpc ∷ rpcs) buckets =
      make_buckets clock (k + 1) capacity refill_rate rpcs
        (insert rpc (new_token_bucket capacity refill_rate (clock k)) buckets)

  unfoldable pub init :
      (Text → Result Client)
      → (ℕ → ℕ)
      → List Text
      → ℤ
      → F
      → RpcHandler F
      → RpcHandler F × Option Error
  unfolding dial_all make_buckets
  init dial clock rpc_urls capacity refill_rate h =
      let clients = dial_all dial rpc_urls in
      if eqb (length clients) 0
      then (record h { rpc_clients = clients }, some "failed to create rpcs")
      else (
        record h {
          rpc_clients = clients;
          buckets = make_buckets clock 0 capacity refill_rate clients [];
        },
        none,
      )

  -- `none` is a panic: an index out of range, or a remainder by 0.
  unfoldable pub get_rpc : RpcHandler F → Option Client
  get_rpc h = get_elem? h.rpc_clients h.last_idx

  unfoldable pub get_next_rpc : RpcHandler F → Option (Client × RpcHandler F)
  get_next_rpc h =
      if eqb (length h.rpc_clients) 0
      then none
      else let idx = (h.last_idx + 1) % length h.rpc_clients in
        elim (get_elem? h.rpc_clients idx) [
          | none ↦ none
          | some rpc ↦ some (rpc, record h { last_idx = idx })
        ]

  -- `none` is a panic, for a client with no bucket, or the wait's own `none`.
  unfoldable pub wait_for_token :
      Float F → (ℕ → ℕ) → ℕ → ℕ → Client → RpcHandler F → Option (ℕ × RpcHandler F)
  unfolding TokenBucket.wait_for_token
  wait_for_token float clock fuel k rpc h = elim (lookup rpc h.buckets) [
    | none ↦ none
    | some tb ↦ elim (TokenBucket.wait_for_token float clock fuel k tb) [
      | none ↦ none
      | some (k', tb') ↦ some (k', record h { buckets = insert rpc tb' h.buckets })
    ]
  ]
