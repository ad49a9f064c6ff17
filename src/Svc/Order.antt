-- ===== src/Svc/Order.antt =====
-- The order of the start: what has succeeded before the service serves, and why it does not.
use d8x_etherfi.Base.{
  ℕ, ◌≡◌, refl, sym, ap, ◌∙◌, ◌⊎◌, inl, inr, List, [], ◌∷◌, ◌++◌, Option, none, some, Text, Result,
  ok, err, Error, String, Bool-cases, Result-cases, Option-cases, true, false, All, string_eq,
}
use Prim.Native.String.{◌++◌ as str_append}
use text.Mathlib.Text.{◌==◌ as str_eq}
use mathlib.Core.Path.{subst}
use d8x_etherfi.Etherfi.Queries.{Env}
use d8x_etherfi.Etherfi.Store.{connect_db}
use d8x_etherfi.Etherfi.NewApp.{Running, Outside, PoolInfo, new_app}
use d8x_etherfi.Etherfi.NewApp.Ready.{NewFails, NewAnswer, new_app-NewAnswer}
use d8x_etherfi.Svc.{
  Settings, Database, Outcome, stopped, exited, panicked, serving, required_envs, check_envs,
  load_env, config_path, database_dsn, closed, after_up, with_migration, run_migrations,
  after_migrations, with_db, pool_at, with_pool, with_app, run,
}

connect_db_lem :
    {Handle : Type 0} (open_db : Text → Result Handle) (dsn : Text)
    → connect_db open_db dsn ≡ open_db dsn
unfolding connect_db
connect_db_lem open_db dsn = elim (Result-cases (open_db dsn)) [
  | inl (handle, q) ↦ rw (connect_db, q)
  | inr (e, q) ↦ rw (connect_db, q)
]

abbrev pub AllSet : Settings → List String → Type 0
AllSet v = All (λ e. v.is_set e ≡ true)

-- The error names the first variable of the list that is not set.
abbrev pub NamesFirst : Settings → List String → Error → Type 0
NamesFirst v es e =
    (before : List String) × (name : String) × (after : List String) × (es ≡ before ++ name ∷ after)
    × AllSet v before
    × (v.is_set name ≡ false)
    × (e ≡ str_append "required environment variable not set " name)

abbrev EnvAnswer : Settings → List String → Option Error → Type 0
EnvAnswer v es none = AllSet v es
EnvAnswer v es (some e) = NamesFirst v es e

later :
    (v : Settings) (e : String) (es : List String) (r : Option Error)
    → v.is_set e ≡ true
    → EnvAnswer v es r
    → EnvAnswer v (e ∷ es) r
later v e es none is h = (is, h)
later v e es (some f) is (before, name, after, eq, set, missing, says) =
    (e ∷ before, name, after, ap (◌∷◌ e) eq, (is, set), missing, says)

check_envs-EnvAnswer : (v : Settings) (es : List String) → EnvAnswer v es (check_envs v es)
unfolding check_envs
check_envs-EnvAnswer v [] = tt
check_envs-EnvAnswer v (e ∷ es) = elim (Bool-cases (v.is_set e)) [
  | inl is ↦ rw (check_envs, is) (later v e es (check_envs v es) is (check_envs-EnvAnswer v es))
  | inr missing ↦ rw (check_envs, missing) ([], e, es, refl, tt, missing, refl)
]

module _ {W Contract Caller Erc20 Manager Bytes F Source Migration Handle : Type 0}
    (env : Env W ℕ Contract Caller Erc20 Manager) (out : Outside Bytes F)
    (database : Database W Source Migration Handle) (v : Settings) where
  -- The embedded migrations were opened over the database of the name, and ran to their end or had
  -- nothing to do.
  abbrev pub Migrated : Text → Type 0
  Migrated dsn =
      (source : Source) × (m : Migration) × (w w' : W) × (database.source ≡ ok source)
      × (database.new_with_source source dsn w ≡ (ok m, w'))
      × (((database.up m w').0 ≡ none) ⊎ ((database.up m w').0 ≡ some "no change"))

  module _ (dsn : Text) where
    abbrev MigrationAnswer : Option Error → Type 0
    MigrationAnswer none = Migrated dsn
    MigrationAnswer (some e) = Unit {0}

    closed-MigrationAnswer :
        (r : (Option Error × Option Error) × W)
        → Migrated dsn
        → MigrationAnswer (closed database r).0
    closed-MigrationAnswer ((some e, e₂), w) h = tt
    closed-MigrationAnswer ((none, some e), w) h = tt
    closed-MigrationAnswer ((none, none), w) h = h

    module _ (source : Source) (w : W) (embedded : database.source ≡ ok source) where
      after_up-MigrationAnswer :
          (m : Migration) (w' : W) (r : Option Error × W)
          → database.new_with_source source dsn w ≡ (ok m, w')
          → (database.up m w').0 ≡ r.0
          → MigrationAnswer (after_up database m r).0
      after_up-MigrationAnswer m w' (none, v) opened q =
          closed-MigrationAnswer (database.close m v) (source, m, w, w', embedded, opened, inl q)
      after_up-MigrationAnswer m w' (some e, v) opened q =
          elim (Bool-cases (str_eq e "no change")) [
            | inl same ↦
                let says = (string_eq.beq_iff e "no change").0 same in
                rw same (
                  closed-MigrationAnswer (database.close m v)
                    (source, m, w, w', embedded, opened, inr (q ∙ ap some says)))
            | inr other ↦ rw other tt
          ]

      with_migration-MigrationAnswer :
          (r : Result Migration × W)
          → database.new_with_source source dsn w ≡ r
          → MigrationAnswer (with_migration database r).0
      with_migration-MigrationAnswer (err e, w') opened = tt
      with_migration-MigrationAnswer (ok m, w') opened =
          after_up-MigrationAnswer m w' (database.up m w') opened refl

    run_migrations-MigrationAnswer : (w : W) → MigrationAnswer (run_migrations database dsn w).0
    unfolding run_migrations
    run_migrations-MigrationAnswer w = elim (Result-cases database.source) [
      | inr (e, q) ↦ rw (run_migrations, q) tt
      | inl (source, q) ↦
          let opened = database.new_with_source source dsn w in
          let runs : run_migrations database dsn w ≡ with_migration database opened =
            simp (run_migrations, q) in
          subst (λ r. MigrationAnswer r.0) (sym runs)
            (with_migration-MigrationAnswer source w q opened refl)
    ]

  abbrev pub path : Text
  path = v.get_string config_path

  -- What an outcome says of the start.
  abbrev pub Ran : Outcome F Handle → Type 0
  Ran (stopped e) =
      NamesFirst v required_envs e
      ⊎ (NewFails env out path e ⊎ (database.open_db (v.get_string database_dsn) ≡ err e))
  Ran (exited e) = (w : W) × ((run_migrations database (v.get_string database_dsn) w).0 ≡ some e)
  Ran panicked = (s : Running F) × NewAnswer env out path (ok (some s)) × (pool_at s ≡ none)
  Ran (serving s handle) =
      AllSet v required_envs
      × NewAnswer env out path (ok (some s))
      × ((pool : PoolInfo) × (pool_at s ≡ some pool))
      × (database.open_db (v.get_string database_dsn) ≡ ok handle)
      × Migrated (v.get_string database_dsn)

  after_migrations-Ran :
      (s : Running F) (handle : Handle) (r : Option Error × W) (w : W)
      → (run_migrations database (v.get_string database_dsn) w).0 ≡ r.0
      → (r.0 ≡ none → Ran (serving s handle))
      → Ran (after_migrations env out database s handle r).0
  after_migrations-Ran s handle (some e, w') w q serves = (w, q)
  after_migrations-Ran s handle (none, w') w q serves = serves refl

  with_db-Ran :
      (s : Running F) (r : Result Handle) (w : W) (pool : PoolInfo)
      → AllSet v required_envs
      → NewAnswer env out path (ok (some s))
      → pool_at s ≡ some pool
      → database.open_db (v.get_string database_dsn) ≡ r
      → Ran (with_db env out database s (v.get_string database_dsn) r w).0
  with_db-Ran s (err e) w pool set made at q = inr (inr q)
  with_db-Ran s (ok handle) w pool set made at q =
      let dsn = v.get_string database_dsn in
      after_migrations-Ran s handle (run_migrations database dsn w) w refl (λ done. (
        set,
        made,
        (pool, at),
        q,
        subst (MigrationAnswer dsn) done (run_migrations-MigrationAnswer dsn w),
      ))

  with_pool-Ran :
      (s : Running F) (o : Option PoolInfo) (w : W)
      → AllSet v required_envs
      → NewAnswer env out path (ok (some s))
      → pool_at s ≡ o
      → Ran (with_pool env out database s (v.get_string database_dsn) o w).0
  with_pool-Ran s none w set made at = (s, made, at)
  with_pool-Ran s (some pool) w set made at =
      let dsn = v.get_string database_dsn in
      with_db-Ran s (connect_db database.open_db dsn) w pool set made at
        (sym (connect_db_lem database.open_db dsn))

  with_app-Ran :
      (r : Result (Option (Running F)) × W)
      → AllSet v required_envs
      → NewAnswer env out path r.0
      → Ran (with_app env out database (v.get_string database_dsn) r).0
  with_app-Ran (err e, w) set answer = inr (inl answer)
  with_app-Ran (ok none, w) set answer = absurd answer
  with_app-Ran (ok (some s), w) set answer = with_pool-Ran s (pool_at s) w set answer refl

  -- The service serves only if every required variable is set, `NewApp` returned an app of the
  -- configured pool with ready handlers, the SDK's list has an entry at the place `PoolId-1`, the
  -- database's handle was opened by the DSN of the settings, and the migrations that were opened from
  -- the embedded source over that DSN ran to their end or had nothing to do. It returns for the error
  -- that names the first variable that is not set, for an error of `NewApp`, each with its cause in
  -- the configuration, the SDK or the nodes, or for that of the handle. It exits only with the error
  -- of the migrations, and panics only if the SDK's list has no entry at the place `PoolId-1`.
  pub run-Ran : (w : W) → Ran (run env out database v w).0
  unfolding run load_env
  run-Ran w =
      let checked = check_envs-EnvAnswer v required_envs in
      elim (Option-cases (check_envs v required_envs)) [
        | inl q ↦
            rw (run, load_env, q)
              (with_app-Ran (new_app env out path w) (subst (EnvAnswer v required_envs) q checked)
                (new_app-NewAnswer env out path w))
        | inr (e, q) ↦ rw (run, load_env, q) (inl (subst (EnvAnswer v required_envs) q checked))
      ]
