-- ===== src/Etherfi/RunFilter/Dropped.antt =====
-- What is left of delegations that were read when two of them have one key.
use d8x_etherfi.Base.{ℕ, ◌≡◌, refl, ◌⊎◌, inl, inr, true, List, ◌∷◌, ◌++◌, map, none, some, Error}
use d8x_etherfi.Chain.{Geth}
use d8x_etherfi.Filterer.{Delegate, Filtered, Log, delegate_log}
use d8x_etherfi.Etherfi.App.{App}
use d8x_etherfi.Etherfi.Store.{Db, DelegateRow, Inserted, insert_delegates, db_insert_delegates}
use d8x_etherfi.Etherfi.Store.Keys.{
  delegates_pkey, key_taken, row_of, Fresh, Keyed, insert_delegates-Keyed,
}
use d8x_etherfi.Etherfi.RunFilter.{Answers, finish, store_delegates}

module _ {F : Type 0} (geth : Geth) (app : App F) (db : Db) (duplicate : Error) (block : ℕ)
    (ds : List Delegate) where
  -- The rows that are there after the insert: those of all delegations; or of those before the first
  -- whose key is taken.
  abbrev pub Kept : List DelegateRow → Type 0
  Kept rows =
      (Fresh app geth block ds db.delegates
        × (rows ≡ db.delegates ++ map (row_of app geth block) ds))
      ⊎ ((front : List Delegate) × (d : Delegate) × (rest : List Delegate) × (ds
            ≡ front ++ d ∷ rest)
          × Fresh app geth block front db.delegates
          × (key_taken (row_of app geth block d) (db.delegates ++ map (row_of app geth block) front)
              ≡ true)
          × (rows ≡ db.delegates ++ map (row_of app geth block) front))

  Stored : Inserted × List DelegateRow → Type 0
  Stored r =
      (rows : List DelegateRow) × (finish geth (record app { last_delegates = block })
          (r.0, record db { delegates = r.1 })
        ≡ some (record app { last_delegates = block }, record db { delegates = rows }))
      × Kept rows

  Keyed-Stored :
      (r : Inserted × List DelegateRow)
      → Keyed app geth block duplicate ds db.delegates r
      → Stored r
  unfolding Stored
  Keyed-Stored r (inl (fresh, e)) =
      rw e (db.delegates ++ map (row_of app geth block) ds, refl, inl (fresh, refl))
  Keyed-Stored r (inr (front, d, rest, split, fresh, taken, e)) = rw e (
    db.delegates ++ map (row_of app geth block) front,
    refl,
    inr (front, d, rest, split, fresh, taken, refl),
  )

  -- When the filterer has read delegations up to a block and the table has its primary key, which
  -- leaves the index out: the goroutine sets its block to that one in any case. If no two of the
  -- delegations, nor one of them and a row, have the same wallet, block and chain, the rows of all of
  -- them are stored; and otherwise only those before the first whose key is taken: that delegation
  -- and all behind it are not in the table.
  pub store_delegates-Kept :
      (found : Filtered Log) (answers : Answers DelegateRow)
      → found.failure ≡ none
      → found.block ≡ block
      → found.logs ≡ map delegate_log ds
      → answers.prepare_failure ≡ none
      → answers.exec ≡ delegates_pkey duplicate
      → (rows : List DelegateRow) × (store_delegates geth found answers (app, db)
          ≡ some (record app { last_delegates = block }, record db { delegates = rows }))
        × Kept rows
  unfolding store_delegates db_insert_delegates Stored
  store_delegates-Kept found answers q at logs ready keyed =
      let r =
        insert_delegates app geth block (delegates_pkey duplicate) (map delegate_log ds)
          db.delegates in
      rw (store_delegates, q, db_insert_delegates, ready, at, logs, keyed)
        (Keyed-Stored r (insert_delegates-Keyed app geth block duplicate ds db.delegates))
