-- ===== src/Etherfi/RunFilter/Changes.antt =====
-- A table stays in step when the chain grows and when the service starts again.
use d8x_etherfi.Base.{
  ℕ, ◌+◌, ◌≤◌, ◌<◌, ◌≡◌, refl, sym, ◌∙◌, List, [], ◌∷◌, ◌++◌, map, some, All, All-weaken, All-zip,
  arith, inl, inr, Bool-cases, max, true,
}
use mathlib.Core.Path.{subst}
use d8x_etherfi.Base.Int.{ℤ, eqb_ℤ, eqb_ℤ_iff}
use d8x_etherfi.Filterer.{Log}
use d8x_etherfi.Filterer.Window.{within, in_range}
use d8x_etherfi.Filterer.Events.{log_block}
use d8x_etherfi.Etherfi.RunFilter.Table.{Table, Cursor, max_block, known}
use d8x_etherfi.Etherfi.RunFilter.InStep.{InStep}

module _ {L : Type 0} (block_of : L → ℕ) where
  -- Events behind the range do not count.
  within-behind :
      (a b : ℕ) (xs ys : List L)
      → All (λ y. a ≤ block_of y → b < block_of y) ys
      → within block_of a (some b) (xs ++ ys) ≡ within block_of a (some b) xs
  within-behind a b [] [] h = refl
  within-behind a b [] (y ∷ ys) (h, hs) = ground (arith, within-behind a b [] ys hs)
  within-behind a b (x ∷ xs) ys h = ground (arith, within-behind a b xs ys h)

  -- A range ends as well where its last event does.
  within-shrink :
      (a b k : ℕ) (xs : List L)
      → b ≤ k
      → All (λ x. block_of x ≤ b) (within block_of a (some k) xs)
      → within block_of a (some b) xs ≡ within block_of a (some k) xs
  within-shrink a b k [] h hs = refl
  within-shrink a b k (x ∷ xs) h hs = elim (Bool-cases (in_range block_of a (some k) x)) [
    | inl q ↦ let (here, rest) = rw q at hs in ground (arith, within-shrink a b k xs h rest)
    | inr q ↦ ground (arith, within-shrink a b k xs h (rw q at hs))
  ]

module _ {Row : Type 0} (table : Table Row) where
  pub InStep-grows :
      (history new : List Log) (head : ℕ) (c : Cursor Row)
      → InStep table history c
      → known table c ≤ max c.genesis head
      → All (λ l. head < log_block l) new
      → InStep table (history ++ new) c
  InStep-grows history new head c s k later = record {
    rows_are =
        s.rows_are
        ∙ sym (
            within-behind log_block (c.genesis + 1) (known table c) history new
              (All-weaken (λ l h g. omega arith) new later));
    past_genesis = s.past_genesis;
    dated = s.dated;
  }

  pub max_block-le :
      (chain : ℤ) (n : ℕ) (rows : List Row)
      → All (λ r. (table.chain_id r ≡ chain) × (table.to_block r ≤ n)) rows
      → max_block table chain rows ≤ n
  max_block-le chain n [] h = omega arith
  max_block-le chain n (r ∷ rows) ((on, k), hs) = ground (arith, max_block-le chain n rows hs)

  -- Every row was read up to a block that the rows themselves show.
  pub below-max_block :
      (chain : ℤ) (n : ℕ) (rows : List Row)
      → All (λ r. (table.chain_id r ≡ chain) × (table.to_block r ≤ n)) rows
      → All (λ r. table.to_block r ≤ max_block table chain rows) rows
  below-max_block chain n [] h = tt
  below-max_block chain n (r ∷ rows) ((on, k), hs) =
      let same : eqb_ℤ (table.chain_id r) chain ≡ true =
        (eqb_ℤ_iff (table.chain_id r) chain).1 on in
      (
        rw same (omega arith),
        All-weaken (λ s h. omega (arith, h)) rows (below-max_block chain n rows hs),
      )

  pub All-log_of :
      (P : Log → Type 0) (rows : List Row)
      → All (λ r. P (table.log_of r)) rows
      → All P (map table.log_of rows)
  All-log_of P [] h = tt
  All-log_of P (r ∷ rows) (h, hs) = (h, All-log_of P rows hs)

  -- The block that is looked up again may be lower, if the last blocks had no log.
  pub InStep-restart :
      (history : List Log) (c : Cursor Row)
      → InStep table history c
      → InStep table history (record c { last = 0 })
        × (known table (record c { last = 0 }) ≤ known table c)
  InStep-restart history c s =
      let m = max_block table c.chain c.rows in
      let read_by : All (λ r. (table.chain_id r ≡ c.chain) × (table.to_block r ≤ known table c))
          c.rows =
        All-weaken (λ r (b, on, k). (on, k)) c.rows s.dated in
      let low : m ≤ known table c = max_block-le c.chain (known table c) c.rows read_by in
      let again : max c.genesis m ≤ known table c = omega (arith, s.past_genesis) in
      let both =
        All-zip _ _ c.rows s.dated (below-max_block c.chain (known table c) c.rows read_by) in
      let blocks : All (λ l. log_block l ≤ max c.genesis m) (map table.log_of c.rows) =
        All-log_of (λ l. log_block l ≤ max c.genesis m) c.rows
          (All-weaken (λ r ((b, on, k), j). omega arith) c.rows both) in
      (
        record {
          rows_are =
              s.rows_are
              ∙ sym (
                  within-shrink log_block (c.genesis + 1) (max c.genesis m) (known table c) history
                    again (subst (All (λ l. log_block l ≤ max c.genesis m)) s.rows_are blocks));
          past_genesis = omega arith;
          dated = All-weaken (λ r ((b, on, k), j). (b, on, omega arith)) c.rows both;
        },
        again,
      )
