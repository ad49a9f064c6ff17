-- ===== src/Etherfi/Queries/Answers.antt =====
-- What the multicalls return, over nodes that agree on the state of the chain at the block.
use d8x_etherfi.Base.{
  ℕ, zero, suc, ◌-◌, ◌≡◌, refl, ap, ◌∙◌, ◌⊎◌, inl, inr, Result, ok, err, Error, Result-cases, List,
  [], ◌∷◌, map, Text, length, length-map, take, drop, Option, arith,
}
use d8x_etherfi.Base.Int.{ℤ}
use d8x_etherfi.Chain.{Call}
use d8x_etherfi.Rounds.Chunks.{slice, chunked, Fetched, chunked_lem}
use d8x_etherfi.Etherfi.Queries.{Env, query_multi_token_balance, erc20_balance_abi}

map-drop : {A B : Type 0} (f : A → B) (n : ℕ) (xs : List A) → map f (drop n xs) ≡ drop n (map f xs)
map-drop f zero xs = refl
map-drop f (suc n) [] = refl
map-drop f (suc n) (x ∷ xs) = map-drop f n xs

map-take : {A B : Type 0} (f : A → B) (n : ℕ) (xs : List A) → map f (take n xs) ≡ take n (map f xs)
map-take f zero xs = refl
map-take f (suc n) [] = refl
map-take f (suc n) (x ∷ xs) = ap (◌∷◌ (f x)) (map-take f n xs)

pub map-slice :
    {A B : Type 0} (f : A → B) (from to : ℕ) (xs : List A)
    → map f (slice from to xs) ≡ slice from to (map f xs)
map-slice f from to xs =
    map-take f (to - from) (drop from xs) ∙ ap (take (to - from)) (map-drop f from xs)

pub map-map :
    {A B C : Type 0} (g : B → C) (f : A → B) (xs : List A)
    → map g (map f xs) ≡ map (λ x. g (f x)) xs
map-map g f [] = refl
map-map g f (x ∷ xs) = ap (◌∷◌ (g (f x))) (map-map g f xs)

module _ {W Client Contract Caller Erc20 Manager : Type 0}
    (env : Env W Client Contract Caller Erc20 Manager) (block : Option ℤ)
    (ledger : Call Contract → ℤ)
    (agreed : (caller : Caller) (calls : List (Call Contract)) (w : W) (xs : List ℤ)
      → (env.node.call caller block calls w).0 ≡ ok xs
      → xs ≡ map ledger calls) where
  -- A multicall that fails, of any contents.
  abbrev pub CallFails : Error → Type 0
  CallFails e =
      (caller : Caller) × (calls : List (Call Contract)) × (w : W) × ((env.node.call caller block
          calls w).0
        ≡ err e)

  -- The values that were wanted, or an error of the connection to the client or of a multicall.
  abbrev pub Answered : Client → List ℤ → Result (List ℤ) → Type 0
  Answered client wanted (ok xs) = xs ≡ wanted
  Answered client wanted (err e) = (env.node.new_caller client ≡ err e) ⊎ CallFails e

  -- One chunk of calls, one for each item.
  module _ {A : Type 0} (call_of : A → Call Contract) (items : List A) (caller : Caller) where
    abbrev fetch : ℕ → ℕ → W → Result (List ℤ) × W
    fetch from to = env.node.call caller block (map call_of (slice from to items))

    fetch-slice :
        (from to : ℕ) (w : W) (xs : List ℤ)
        → (fetch from to w).0 ≡ ok xs
        → xs ≡ slice from to (map (λ a. ledger (call_of a)) items)
    fetch-slice from to w xs e =
        agreed caller (map call_of (slice from to items)) w xs e
        ∙ map-map ledger call_of (slice from to items)
        ∙ map-slice (λ a. ledger (call_of a)) from to items

    Fetched-Answered :
        (client : Client) (wanted : List ℤ) (r : Result (List ℤ))
        → Fetched 500 (length items) fetch wanted r
        → Answered client wanted r
    Fetched-Answered client wanted (ok xs) h = h
    Fetched-Answered client wanted (err e) (from, to, v, h) =
        inr (caller, map call_of (slice from to items), v, h)

    chunked-Answered :
        (client : Client) (w : W)
        → Answered client
            (map (λ a. ledger (call_of a)) items)
            (chunked 500 (length items) fetch w).0
    chunked-Answered client w =
        Fetched-Answered client (map (λ a. ledger (call_of a)) items)
          (chunked 500 (length items) fetch w).0
          (chunked_lem 500 (length items) fetch (map (λ a. ledger (call_of a)) items)
            (length-map (λ a. ledger (call_of a)) items) (omega arith) fetch-slice w)

  -- Over nodes that agree on the state at the block, and with the contract's interface parsed, the
  -- balances come back one for each address and in their order, in however many chunks; or the
  -- error of a connection or of a multicall does.
  pub query_multi_token_balance-Answered :
      (contract : Contract) (client : Client) (tkn_addr : Text) (addrs : List Text) (w : W)
      → env.node.new_contract erc20_balance_abi tkn_addr ≡ ok contract
      → Answered client
          (map (λ a. ledger (Call.balance_of contract (env.geth.hex_to_address a))) addrs)
          (query_multi_token_balance env client tkn_addr addrs block w).0
  unfolding query_multi_token_balance
  query_multi_token_balance-Answered contract client tkn_addr addrs w made =
      elim (Result-cases (env.node.new_caller client)) [
        | inr (e, q) ↦ rw (query_multi_token_balance, made, q) (inl q)
        | inl (caller, q) ↦
            rw (query_multi_token_balance, made, q)
              (chunked-Answered (λ a. Call.balance_of contract (env.geth.hex_to_address a)) addrs
                caller client w)
      ]
