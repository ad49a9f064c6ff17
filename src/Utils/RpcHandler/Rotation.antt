-- ===== src/Utils/RpcHandler/Rotation.antt =====
-- The handler goes round its clients, and never names one that it has no bucket for.
use native.Mathlib.Nat.{mod-lt, mod-eq_of_lt, mod-add-mod}
use d8x_etherfi.Base.{
  ℕ, zero, suc, ◌+◌, ◌%◌, ◌-◌, eqb_iff, ◌<◌, ◌≡◌, ◌≢◌, refl, sym, ◌∙◌, ap, List, [], ◌∷◌, Option,
  none, some, Text, Result, length, get_elem?, get_elem?-lt, nat_eq, eqb, arith, Bool-cases, inl,
  inr, false,
}
use d8x_etherfi.Base.Int.{ℤ}
use d8x_etherfi.Base.Dict.{Dict, lookup, insert, lookup-insert_self, lookup-insert_ne}
use d8x_etherfi.Utils.TokenBucket.{TokenBucket, new_token_bucket}
use d8x_etherfi.Utils.RpcHandler.{Client, RpcHandler, dial_all, make_buckets, init, get_next_rpc}
use native.Mathlib.Decide.{ℕ_discrete, dec_lt}
use mathlib.Core.Path.{subst}
use mathlib.Core.Option.{some-injective}

next_mod : (i n len : ℕ) → ((i + 1) % len + n) % len ≡ (i + suc n) % len
next_mod i n len =
    let e : i + 1 + n ≡ i + suc n = omega arith in mod-add-mod (i + 1) len n ∙ ap (λ k. k % len) e

around : (j len : ℕ) → j < len → (j + len) % len ≡ j
around j len h = grind arith

some_is_not_none : {A B : Type 0} {a : A} → some a ≡ none → B
some_is_not_none e = cc

length-zero : {A : Type 0} (xs : List A) → length xs ≡ 0 → xs ≡ []
length-zero [] h = refl
length-zero (x ∷ xs) h = absurd (omega arith)

module _ {F : Type 0} where
  -- There is a client, the index is one of the list, and every client has a bucket.
  pub record IsReady (h : RpcHandler F) : Type 0 where
    pub in_list : h.last_idx < length h.rpc_clients
    pub has_bucket :
        (i : ℕ) (rpc : Client)
        → get_elem? h.rpc_clients i ≡ some rpc
        → (tb : TokenBucket F) × (lookup rpc h.buckets ≡ some tb)

  abbrev next_idx : RpcHandler F → ℕ
  next_idx h = (h.last_idx + 1) % length h.rpc_clients

  -- On a ready handler `GetNextRpc` does not panic: it returns the client behind the last one in the
  -- circle, which has a bucket, and leaves the handler ready.
  pub get_next_rpc-IsReady :
      (h : RpcHandler F)
      → IsReady h
      → (rpc : Client) × (get_next_rpc h ≡ some (rpc, record h { last_idx = next_idx h }))
        × (get_elem? h.rpc_clients (next_idx h) ≡ some rpc)
        × IsReady (record h { last_idx = next_idx h })
  unfolding get_next_rpc
  get_next_rpc-IsReady h ready =
      let some_client : eqb (length h.rpc_clients) 0 ≡ false = ground (arith, ready.in_list) in
      let small : next_idx h < length h.rpc_clients =
        mod-lt (h.last_idx + 1) (omega (arith, ready.in_list)) in
      let (rpc, at) = get_elem?-lt h.rpc_clients (next_idx h) small in
      (
        rpc,
        rw (get_next_rpc, some_client, at),
        at,
        record { in_list = small; has_bucket = ready.has_bucket },
      )

  -- `n` calls in a row.
  unfoldable pub rotate : ℕ → RpcHandler F → Option (RpcHandler F)
  rotate zero h = some h
  rotate (suc n) h = elim (get_next_rpc h) [ none ↦ none | some (rpc, h') ↦ rotate n h' ]

  rotate-idx :
      (n : ℕ) (h : RpcHandler F)
      → IsReady h
      → rotate n h ≡ some (record h { last_idx = (h.last_idx + n) % length h.rpc_clients })
  unfolding rotate
  rotate-idx zero h ready =
      let e : h.last_idx ≡ (h.last_idx + 0) % length h.rpc_clients =
        let z : h.last_idx + 0 ≡ h.last_idx = omega arith in
        rw z (sym (mod-eq_of_lt ready.in_list)) in
      ap (λ i. some (record h { last_idx = i })) e
  rotate-idx (suc n) h ready =
      let (rpc, e, _, ready') = get_next_rpc-IsReady h ready in
      rw (rotate, e)
        (rotate-idx n (record h { last_idx = next_idx h }) ready'
          ∙ ap (λ i. some (record h { last_idx = i }))
              (next_mod h.last_idx n (length h.rpc_clients)))

  -- On a ready handler every client has its turn: whichever index of the list is asked for, some
  -- number of calls, one for each client at most, ends with the handler at that index.
  pub rotate_reaches :
      (h : RpcHandler F) (j : ℕ)
      → IsReady h
      → j < length h.rpc_clients
      → (n : ℕ) × (n < length h.rpc_clients) × (rotate (suc n) h ≡ some (record h { last_idx = j }))
  rotate_reaches h j ready small =
      let len = length h.rpc_clients in
      elim (dec_lt h.last_idx j) [
        | yes above ↦
            let e : h.last_idx + suc (j - h.last_idx - 1) ≡ j = omega arith in
            (
              j - h.last_idx - 1,
              omega arith,
              rotate-idx (suc (j - h.last_idx - 1)) h ready
                  ∙ ap (λ i. some (record h { last_idx = i })) (rw e (mod-eq_of_lt small)),
            )
        | no below ↦
            let n = j + len - h.last_idx - 1 in
            let e : h.last_idx + suc n ≡ j + len = omega (arith, ready.in_list) in
            (
              n,
              omega (arith, ready.in_list),
              rotate-idx (suc n) h ready
                  ∙ ap (λ i. some (record h { last_idx = i })) (rw e (around j len small)),
            )
      ]

  lookup-make_buckets :
      (clock : ℕ → ℕ) (k : ℕ) (capacity : ℤ) (rate : F) (rpcs : List Client)
      (buckets : Dict Client (TokenBucket F)) (rpc : Client) (tb : TokenBucket F)
      → lookup rpc buckets ≡ some tb
      → (tb' : TokenBucket F) × (lookup rpc (make_buckets clock k capacity rate rpcs buckets)
          ≡ some tb')
  unfolding make_buckets
  lookup-make_buckets clock k capacity rate [] buckets rpc tb e = (tb, e)
  lookup-make_buckets clock k capacity rate (r ∷ rpcs) buckets rpc tb e =
      let fresh = new_token_bucket capacity rate (clock k) in
      let go = lookup-make_buckets clock (k + 1) capacity rate rpcs (insert r fresh buckets) rpc in
      elim (ℕ_discrete r rpc) [
        | yes same ↦ go fresh (
            subst (λ c. lookup c (insert r fresh buckets) ≡ some fresh) same
              (lookup-insert_self r fresh buckets))
        | no other ↦ go tb (lookup-insert_ne rpc r fresh buckets other ∙ e)
      ]

  make_buckets-all :
      (clock : ℕ → ℕ) (k : ℕ) (capacity : ℤ) (rate : F) (rpcs : List Client)
      (buckets : Dict Client (TokenBucket F)) (i : ℕ) (rpc : Client)
      → get_elem? rpcs i ≡ some rpc
      → (tb : TokenBucket F) × (lookup rpc (make_buckets clock k capacity rate rpcs buckets)
          ≡ some tb)
  unfolding make_buckets
  make_buckets-all clock k capacity rate [] buckets i rpc e = cc
  make_buckets-all clock k capacity rate (r ∷ rpcs) buckets zero rpc e =
      let fresh = new_token_bucket capacity rate (clock k) in
      lookup-make_buckets clock (k + 1) capacity rate rpcs (insert r fresh buckets) rpc fresh (
        subst (λ c. lookup c (insert r fresh buckets) ≡ some fresh) (some-injective _ _ e)
          (lookup-insert_self r fresh buckets))
  make_buckets-all clock k capacity rate (r ∷ rpcs) buckets (suc i) rpc e =
      make_buckets-all clock (k + 1) capacity rate rpcs
        (insert r (new_token_bucket capacity rate (clock k)) buckets) i rpc e

  -- `Init` of a handler whose index is 0 reports an error only if no url could be dialled, and
  -- with no error the handler is ready.
  pub init-IsReady :
      (dial : Text → Result Client) (clock : ℕ → ℕ) (urls : List Text) (capacity : ℤ) (rate : F)
      (h : RpcHandler F)
      → h.last_idx ≡ 0
      → ((init dial clock urls capacity rate h).1 ≡ none
          → IsReady (init dial clock urls capacity rate h).0)
        × ((init dial clock urls capacity rate h).1 ≢ none → dial_all dial urls ≡ [])
  unfolding init
  init-IsReady dial clock urls capacity rate h first =
      let clients = dial_all dial urls in
      elim (Bool-cases (eqb (length clients) 0)) [
        | inl nobody ↦
            rw (init, nobody)
              (
                (λ e. some_is_not_none e),
                λ _. length-zero clients ((eqb_iff (length clients) 0).0 nobody),
              )
        | inr some_client ↦
            rw (init, some_client)
              (
                (λ _. record {
                  in_list = ground arith;
                  has_bucket = λ i rpc e. make_buckets-all clock 0 capacity rate clients [] i rpc e;
                }),
                λ e. absurd (e refl),
              )
      ]
