-- ===== src/Tests/Startups.antt =====
-- Examples for Migrations.
use ecosystem_complete.Prelude.{
  ◌≡◌, refl, ◌⊎◌, String, true, false, none, some, List, [], ◌∷◌, ◌++◌, ◌==◌, eqb, length,
  exists_where,
}
use ecosystem_complete.Migrations.{Migration, Stop, Server, Installation, report, run}
use ecosystem_complete.Migrations.Loop.{AllRecorded}
use ecosystem_complete.Migrations.Runs.{run_twice, run_reports}

-- A database whose schema is the list of the batches that ran in it.
abbrev pub server : Server (List String)
server = record {
  fails = λ _. false;
  run_sql = λ sql ran. (ran ++ sql ∷ [], true);
  has_user_table = λ ran. exists_where (λ sql. sql == "create seg.tb_user") ran;
}

-- The same, where the second file cannot be recorded.
abbrev broken : Server (List String)
broken = record server { fails = λ s. elim s [ Stop.recording n ↦ n == "20.sql" | _ ↦ false ] }

abbrev pub files : List Migration
files =
    record { name = "10.sql"; sql = "create seg.tb_user" }
    ∷ record { name = "20.sql"; sql = "alter" }
    ∷ []

abbrev pub empty : Installation (List String)
empty = record { schema = []; ledger = [] }

completes : (run server (some files) empty).0.stop ≡ none
unfolding run exists_where
completes = refl

run_twice_example :
    let i = (run server (some files) empty).1 in
    AllRecorded files i.ledger × (run server (some files) i ≡ (report [] none, i))
run_twice_example = run_twice server server files empty (λ s. refl) completes

run_reports_example :
    let (r, i) = run broken (some files) empty in
    (i.ledger ≡ [] ++ r.applied)
    ⊎ ((eqb (length empty.ledger) 0 ≡ true)
        × (broken.has_user_table empty.schema ≡ true)
        × (r ≡ report [] none)
        × (i.schema ≡ empty.schema))
run_reports_example = run_reports broken files empty
