-- ===== src/Filterer/Window.antt =====
-- The events of a range of blocks, and how ranges join.
use d8x_etherfi.Base.{
  ℕ, ◌+◌, ◌≤◌, ◌<◌, ◌≡◌, refl, ap, List, [], ◌∷◌, ◌++◌, if◌then◌else◌, leb, Bool, ◌&&◌, Option,
  none, some, All, arith, map, inl, inr, Bool-cases,
}
use native.Mathlib.Decide.{dec_lt}

module _ {L : Type 0} (block_of : L → ℕ) where
  -- The block is in the range, which `none` leaves open.
  abbrev pub in_range : ℕ → Option ℕ → L → Bool
  in_range a none x = leb a (block_of x)
  in_range a (some b) x = leb a (block_of x) && leb (block_of x) b

  abbrev pub within : ℕ → Option ℕ → List L → List L
  within a b [] = []
  within a b (x ∷ xs) = if in_range a b x then x ∷ within a b xs else within a b xs

  -- A history is in the order of its blocks.
  abbrev pub IsSorted : List L → Type 0
  IsSorted [] = Unit {0}
  IsSorted (x ∷ xs) = All (λ y. block_of x ≤ block_of y) xs × IsSorted xs

  above-empty :
      (a b c : ℕ) (xs : List L) → b < c → All (λ y. c ≤ block_of y) xs → within a (some b) xs ≡ []
  above-empty a b c [] h k = refl
  above-empty a b c (x ∷ xs) h (k, ks) = ground (arith, above-empty a b c xs h ks)

  above-All : (a c : ℕ) (xs : List L) → a ≤ c → All (λ y. c ≤ block_of y) xs → within a none xs ≡ xs
  above-All a c [] h k = refl
  above-All a c (x ∷ xs) h (k, ks) = ground (arith, above-All a c xs h ks)

  -- The events up to a block and those after it, one list behind the other, are all the events.
  pub within-append :
      (a b : ℕ) (xs : List L)
      → IsSorted xs
      → a ≤ b + 1
      → within a (some b) xs ++ within (b + 1) none xs ≡ within a none xs
  within-append a b [] s h = refl
  within-append a b (x ∷ xs) (above, s) h = elim (dec_lt b (block_of x)) [
    | no low ↦ ground (arith, within-append a b xs s h)
    | yes high ↦ ground (
      arith,
      above-empty a b (block_of x) xs high above,
      above-All (b + 1) (block_of x) xs (omega arith) above,
      above-All a (block_of x) xs (omega arith) above,
    )
  ]

-- The events of a range, each one processed, are the processed events of the range, if processing
-- keeps the blocks.
pub map-within :
    {E L : Type 0} (blk : E → ℕ) (block_of : L → ℕ) (f : E → L) (a : ℕ) (b : Option ℕ) (xs : List E)
    → All (λ x. block_of (f x) ≡ blk x) xs
    → map f (within blk a b xs) ≡ within block_of a b (map f xs)
map-within blk block_of f a b [] h = refl
map-within blk block_of f a none (x ∷ xs) (h, hs) = elim (Bool-cases (in_range blk a none x)) [
  | inl q ↦ rw (h, q) (ap (◌∷◌ (f x)) (map-within blk block_of f a none xs hs))
  | inr q ↦ rw (h, q) (map-within blk block_of f a none xs hs)
]
map-within blk block_of f a (some b) (x ∷ xs) (h, hs) =
    elim (Bool-cases (in_range blk a (some b) x)) [
      | inl q ↦ rw (h, q) (ap (◌∷◌ (f x)) (map-within blk block_of f a (some b) xs hs))
      | inr q ↦ rw (h, q) (map-within blk block_of f a (some b) xs hs)
    ]

map-above :
    {E L : Type 0} (blk : E → ℕ) (block_of : L → ℕ) (f : E → L) (c : ℕ) (xs : List E)
    → All (λ x. block_of (f x) ≡ blk x) xs
    → All (λ y. c ≤ blk y) xs
    → All (λ y. c ≤ block_of y) (map f xs)
map-above blk block_of f c [] h k = tt
map-above blk block_of f c (x ∷ xs) (h, hs) (k, ks) = (rw h k, map-above blk block_of f c xs hs ks)

pub map-IsSorted :
    {E L : Type 0} (blk : E → ℕ) (block_of : L → ℕ) (f : E → L) (xs : List E)
    → All (λ x. block_of (f x) ≡ blk x) xs
    → IsSorted blk xs
    → IsSorted block_of (map f xs)
map-IsSorted blk block_of f [] h s = tt
map-IsSorted blk block_of f (x ∷ xs) (h, hs) (above, s) = (
  map-above blk block_of f (block_of (f x)) xs hs (rw h above),
  map-IsSorted blk block_of f xs hs s,
)

module _ {L : Type 0} (block_of : L → ℕ) where
  -- An open range is the range up to the last block.
  pub within-closed :
      (a b : ℕ) (xs : List L)
      → All (λ x. block_of x ≤ b) xs
      → within block_of a (some b) xs ≡ within block_of a none xs
  within-closed a b [] h = refl
  within-closed a b (x ∷ xs) (h, hs) = ground (arith, within-closed a b xs hs)

  pub All-within :
      (P : L → Type 0) (a : ℕ) (b : Option ℕ) (xs : List L)
      → All P xs
      → All P (within block_of a b xs)
  All-within P a b [] h = tt
  All-within P a b (x ∷ xs) (h, hs) = elim (Bool-cases (in_range block_of a b x)) [
    | inl q ↦ rw q (h, All-within P a b xs hs)
    | inr q ↦ rw q (All-within P a b xs hs)
  ]
