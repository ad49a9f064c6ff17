-- ===== src/Etherfi/Store/Keys.antt =====
-- The primary key of the table of delegations, internal/db/migrations/0002_create_delegates.up.sql,
-- and what an insert of logs makes of it.
use d8x_etherfi.Base.{
  ℕ, ◌≡◌, refl, sym, ap, ◌∙◌, ◌⊎◌, inl, inr, Bool, true, false, ◌&&◌, ◌||◌, List, [], ◌∷◌, ◌++◌,
  map, Option, none, some, Error, text_beq, if◌then◌else◌, Bool-cases,
}
use mathlib.Core.List.{append_assoc, append-nil}
use d8x_etherfi.Base.Int.{eqb_ℤ}
use d8x_etherfi.Chain.{Geth}
use d8x_etherfi.Filterer.{Delegate, delegate_log}
use d8x_etherfi.Etherfi.App.{App}
use d8x_etherfi.Etherfi.Store.{DelegateRow, Inserted, all_in, failed, insert_delegates}

-- `PRIMARY KEY ("addr", "block", "chain_id")`: the index of the delegation is no part of it.
abbrev pub same_key : DelegateRow → DelegateRow → Bool
same_key a b = text_beq a.addr b.addr && (eqb_ℤ a.block b.block && eqb_ℤ a.chain_id b.chain_id)

abbrev pub key_taken : DelegateRow → List DelegateRow → Bool
key_taken row [] = false
key_taken row (r ∷ rows) = same_key row r || key_taken row rows

-- A row whose key is taken is refused, with the error `duplicate` of the database.
abbrev pub delegates_pkey : Error → DelegateRow → List DelegateRow → Option Error
delegates_pkey duplicate row rows = if key_taken row rows then some duplicate else none

module _ {F : Type 0} (app : App F) (geth : Geth) (to_block : ℕ) where
  abbrev pub row_of : Delegate → DelegateRow
  row_of d = record {
    addr = d.addr;
    delegate = d.delegate;
    block = d.block_nr;
    index = d.index;
    to_block = to_block;
    chain_id = app.chain_id;
  }

  -- No delegation has the key of one before it.
  abbrev pub Fresh : List Delegate → List DelegateRow → Type 0
  Fresh [] rows = Unit {0}
  Fresh (d ∷ ds) rows = (key_taken (row_of d) rows ≡ false) × Fresh ds (rows ++ row_of d ∷ [])

  -- All delegations are stored; or those before the first whose key is taken, and the insert fails.
  abbrev pub Keyed : Error → List Delegate → List DelegateRow → Inserted × List DelegateRow → Type 0
  Keyed duplicate ds rows r =
      (Fresh ds rows × (r ≡ (all_in, rows ++ map row_of ds)))
      ⊎ ((front : List Delegate) × (d : Delegate) × (rest : List Delegate) × (ds
            ≡ front ++ d ∷ rest)
          × Fresh front rows
          × (key_taken (row_of d) (rows ++ map row_of front) ≡ true)
          × (r ≡ (failed duplicate, rows ++ map row_of front)))

  pub insert_delegates-Keyed :
      (duplicate : Error) (ds : List Delegate) (rows : List DelegateRow)
      → Keyed duplicate ds rows
          (insert_delegates app geth to_block (delegates_pkey duplicate) (map delegate_log ds) rows)
  unfolding insert_delegates
  insert_delegates-Keyed duplicate [] rows =
      inl (tt, ap (λ xs. (all_in, xs)) (sym (append-nil rows)))
  insert_delegates-Keyed duplicate (d ∷ ds) rows = elim (Bool-cases (key_taken (row_of d) rows)) [
    | inl taken ↦ inr (
      [],
      d,
      ds,
      refl,
      tt,
      ap (key_taken (row_of d)) (append-nil rows) ∙ taken,
      rw (insert_delegates, taken) (ap (λ xs. (failed duplicate, xs)) (sym (append-nil rows))),
    )
    | inr free ↦
        let behind = append_assoc rows (row_of d ∷ []) in
        elim (insert_delegates-Keyed duplicate ds (rows ++ row_of d ∷ [])) [
          | inl (fresh, e) ↦ inl (
            (free, fresh),
            rw (insert_delegates, free) (e ∙ ap (λ xs. (all_in, xs)) (behind (map row_of ds))),
          )
          | inr (front, d', rest, split, fresh, taken, e) ↦ inr (
            d ∷ front,
            d',
            rest,
            ap (◌∷◌ d) split,
            (free, fresh),
            ap (key_taken (row_of d')) (sym (behind (map row_of front))) ∙ taken,
            rw (insert_delegates, free)
                (e ∙ ap (λ xs. (failed duplicate, xs)) (behind (map row_of front))),
          )
        ]
  ]
