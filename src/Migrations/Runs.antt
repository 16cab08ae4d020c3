-- ===== src/Migrations/Runs.antt =====
-- What a run leaves in the ledger, and what the run after it does.
use mathlib.Core.List.{append-nil}
use ecosystem_complete.Prelude.{
  ◌≡◌, sym, ap, ◌∙◌, ◌⊎◌, inl, inr, String, true, false, none, some, List, [], ◌∷◌, ◌++◌, arith,
  eqb, length,
}
use ecosystem_complete.Prelude.Sort.{contains}
use ecosystem_complete.Migrations.Loop.{
  AllRecorded, contains-append_left, contains-append_new, apply_pending_grows,
  apply_pending_complete, run_cases, run_idle,
}
use ecosystem_complete.Migrations.{
  Migration, Stop, Server, Installation, report, record_file, adopt, names_of, run,
}

contains-record_file :
    (name : String) (ledger : List String) → contains (record_file name ledger) name ≡ true
unfolding record_file
contains-record_file name ledger = ground (arith, contains-append_new ledger name)

record_file_keeps :
    (name n : String) (ledger : List String)
    → contains ledger n ≡ true
    → contains (record_file name ledger) n ≡ true
unfolding record_file
record_file_keeps name n ledger e = ground (arith, contains-append_left ledger (name ∷ []) n e)

adopt_keeps :
    (names ledger : List String) (n : String)
    → contains ledger n ≡ true
    → contains (adopt names ledger) n ≡ true
unfolding adopt
adopt_keeps [] ledger n e = e
adopt_keeps (name ∷ names) ledger n e =
    adopt_keeps names (record_file name ledger) n (record_file_keeps name n ledger e)

AllRecorded-adopt :
    (migrations : List Migration) (ledger : List String)
    → AllRecorded migrations (adopt (names_of migrations) ledger)
unfolding adopt
AllRecorded-adopt [] ledger = tt
AllRecorded-adopt (m ∷ migrations) ledger = (
  adopt_keeps (names_of migrations) (record_file m.name ledger) m.name
      (contains-record_file m.name ledger),
  AllRecorded-adopt migrations (record_file m.name ledger),
)

pub recorded_after :
    {S : Type 0} (server : Server S) (migrations : List Migration) (i : Installation S)
    → (run server (some migrations) i).0.stop ≡ none
    → AllRecorded migrations (run server (some migrations) i).1.ledger
recorded_after server migrations i e = elim (run_cases server migrations i) [
  | inl (stopped, _, _) ↦ absurd (ground arith)
  | inr (inl (_, _, adopted)) ↦ rw adopted (AllRecorded-adopt migrations i.ledger)
  | inr (inr applied) ↦ rw applied (apply_pending_complete server [] migrations i (rw applied at e))
]

-- After a run without an error every file is in the ledger, and a run of the same files in which
-- every call succeeds executes nothing and changes nothing.
pub run_twice :
    {S : Type 0} (server server' : Server S) (migrations : List Migration) (i : Installation S)
    → ((s : Stop) → server'.fails s ≡ false)
    → (run server (some migrations) i).0.stop ≡ none
    → let i' = (run server (some migrations) i).1 in
      AllRecorded migrations i'.ledger × (run server' (some migrations) i' ≡ (report [] none, i'))
run_twice server server' migrations i up e =
    let recorded = recorded_after server migrations i e in
    (recorded, run_idle server' migrations (run server (some migrations) i).1 up recorded)

-- Whatever calls fail, the files that a run reports are those that it adds to the ledger, in order,
-- unless it adopts a database that has seg.tb_user and an empty ledger: then it reports none, without
-- an error, and executes nothing.
pub run_reports :
    {S : Type 0} (server : Server S) (migrations : List Migration) (i : Installation S)
    → let (r, i') = run server (some migrations) i in
      (i'.ledger ≡ i.ledger ++ r.applied)
      ⊎ ((eqb (length i.ledger) 0 ≡ true)
          × (server.has_user_table i.schema ≡ true)
          × (r ≡ report [] none)
          × (i'.schema ≡ i.schema))
run_reports server migrations i = elim (run_cases server migrations i) [
  | inl (stopped, nothing, same) ↦
      inl (rw (nothing, append-nil) (ap (λ (j : Installation _). j.ledger) same))
  | inr (inl (empty, present, e)) ↦ inr (empty, present, rw e, rw e)
  | inr (inr e) ↦
      let (new, done, kept) = apply_pending_grows server [] migrations i in
      inl (rw e (kept ∙ ap (λ names. i.ledger ++ names) (sym done)))
]
