-- ===== src/Migrations.antt =====
-- api/internal/db/migrate.go, with the ledger of pool.go: the schema files that startup applies.
pub mod Files
pub mod Loop
pub mod Runs
use ecosystem_complete.Prelude.{
  ℕ, ◌+◌, String, Bool, true, false, ◌&&◌, ◌||◌, not, Option, none, some, List, [], ◌∷◌, ◌++◌, map,
  eqb, length, if◌then◌else◌,
}
use ecosystem_complete.Prelude.Sort.{contains}

pub record Migration : Type 0 where
  pub name : String
  pub sql : String

-- Where a run stops. The first six are the calls that return an error, of the ledger's, Load and the
-- executor, with the file's name.
pub data Stop : Type 0 where
  ensuring loading counting checking_schema adopting : Stop
  checking applying recording : String → Stop

-- What a run meets: which calls fail, what a batch does to the database and whether it succeeds, and
-- whether seg.tb_user exists.
pub record Server (S : Type 0) : Type 0 where
  pub fails : Stop → Bool
  pub run_sql : String → S → S × Bool
  pub has_user_table : S → Bool

-- The database, and seg.tb_schema_migration.
pub record Installation (S : Type 0) : Type 0 where
  pub schema : S
  pub ledger : List String

-- What Run returns: the files that it applied, and its error.
pub record Report : Type 0 where
  pub applied : List String
  pub stop : Option Stop

abbrev pub report : List String → Option Stop → Report
report applied stop = record { applied = applied; stop = stop }

-- PostgresLedger.Record: ON CONFLICT DO NOTHING
unfoldable pub record_file : String → List String → List String
unfolding contains
record_file name ledger = if contains ledger name then ledger else ledger ++ name ∷ []

-- PostgresLedger.Adopt
unfoldable pub adopt : List String → List String → List String
unfolding record_file
adopt [] ledger = ledger
adopt (name ∷ names) ledger = adopt names (record_file name ledger)

abbrev pub names_of : List Migration → List String
names_of migrations = map (λ m. m.name) migrations

module _ {S : Type 0} (server : Server S) where
  -- The body of Run's loop for a file that is not in the ledger: none goes on.
  unfoldable pub apply_file : Migration → Installation S → Option Stop × Installation S
  unfolding record_file
  apply_file m i =
      let (schema, done) = server.run_sql m.sql i.schema in
      let ran = record i { schema = schema } in
      if not done
      then (some (Stop.applying m.name), ran)
      else if server.fails (Stop.recording m.name)
      then (some (Stop.recording m.name), ran)
      else (none, record ran { ledger = record_file m.name i.ledger })

  -- Run's loop, with the files that were applied before.
  unfoldable pub apply_pending :
      List String → List Migration → Installation S → Report × Installation S
  unfolding apply_file contains
  apply_pending applied [] i = (report applied none, i)
  apply_pending applied (m ∷ migrations) i = elim (server.fails (Stop.checking m.name)) [
    | true ↦ (report applied (some (Stop.checking m.name)), i)
    | false ↦ elim (contains i.ledger m.name) [
      | true ↦ apply_pending applied migrations i
      | false ↦
          let (stop, i') = apply_file m i in
          elim stop [
            | some s ↦ (report applied (some s), i')
            | none ↦ apply_pending (applied ++ m.name ∷ []) migrations i'
          ]
    ]
  ]

  -- adoptExisting: the number of files that were recorded without running them
  unfoldable pub adopt_existing :
      List Migration → Installation S → (Option Stop × ℕ) × Installation S
  unfolding adopt
  adopt_existing migrations i =
      if eqb (length migrations) 0
      then ((none, 0), i)
      else if server.fails Stop.counting
      then ((some Stop.counting, 0), i)
      else if not (eqb (length i.ledger) 0)
      then ((none, 0), i)
      else if server.fails Stop.checking_schema
      then ((some Stop.checking_schema, 0), i)
      else if not (server.has_user_table i.schema)
      then ((none, 0), i)
      else if server.fails Stop.adopting
      then ((some Stop.adopting, 0), i)
      else ((none, length migrations), record i { ledger = adopt (names_of migrations) i.ledger })

  -- Run after Ensure and Load
  unfoldable pub run_loaded : List Migration → Installation S → Report × Installation S
  unfolding adopt_existing apply_pending
  run_loaded migrations i =
      let ((stop, adopted), i') = adopt_existing migrations i in
      elim stop [
        | some s ↦ (report [] (some s), i')
        | none ↦
            if not (eqb adopted 0) then (report [] none, i') else apply_pending [] migrations i'
      ]

  -- Runner.Run; none is Load's error
  unfoldable pub run : Option (List Migration) → Installation S → Report × Installation S
  unfolding run_loaded
  run loaded i =
      if server.fails Stop.ensuring then (report [] (some Stop.ensuring), i) else elim loaded [
        | none ↦ (report [] (some Stop.loading), i)
        | some migrations ↦ run_loaded migrations i
      ]
