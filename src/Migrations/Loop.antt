-- ===== src/Migrations/Loop.antt =====
-- The loop of Run, one file at a time.
use mathlib.Core.List.{append-nil, append_assoc}
use ecosystem_complete.Prelude.{
  ◌≡◌, refl, sym, ◌∙◌, ◌⊎◌, inl, inr, String, true, false, ◌||◌, none, some, List, [], ◌∷◌, ◌++◌,
  arith, ◌==◌, eqb, length, is_some, exists_where,
}
use text.Mathlib.TextPositions.{eq_refl}
use ecosystem_complete.Prelude.Sort.{contains, exists-append}
use ecosystem_complete.Migrations.{
  Migration, Stop, Server, Installation, Report, report, adopt, names_of, apply_pending, run,
}

-- Every file is in the ledger.
abbrev pub AllRecorded : List Migration → List String → Type 0
AllRecorded [] ledger = Unit {0}
AllRecorded (m ∷ migrations) ledger =
    (contains ledger m.name ≡ true) × AllRecorded migrations ledger

contains-append :
    (xs ys : List String) (n : String) → contains (xs ++ ys) n ≡ (contains xs n || contains ys n)
unfolding contains
contains-append xs ys n = exists-append (λ t. t == n) xs ys

pub contains-append_left :
    (xs ys : List String) (n : String) → contains xs n ≡ true → contains (xs ++ ys) n ≡ true
contains-append_left xs ys n e = ground (arith, contains-append xs ys n)

pub contains-append_new : (xs : List String) (n : String) → contains (xs ++ n ∷ []) n ≡ true
unfolding contains exists_where
contains-append_new xs n = ground (arith, exists-append (λ t. t == n) xs (n ∷ []), eq_refl n)

nonempty :
    (ledger : List String) (n : String) → contains ledger n ≡ true → eqb (length ledger) 0 ≡ false
unfolding contains exists_where
nonempty [] n e = absurd (ground arith)
nonempty (l ∷ ledger) n e = ground arith

module _ {S : Type 0} (server : Server S) where
  -- The installation after a file ran and was recorded.
  abbrev after_file : Migration → Installation S → Installation S
  after_file m i = record {
    schema = (server.run_sql m.sql i.schema).0;
    ledger = i.ledger ++ m.name ∷ [];
  }

  abbrev StopsAt : List String → Migration → Installation S → Report × Installation S → Type 0
  StopsAt applied m i (r, i') =
      (r.applied ≡ applied)
      × (i'.ledger ≡ i.ledger)
      × ((r.stop ≡ some (Stop.checking m.name))
          ⊎ ((contains i.ledger m.name ≡ false)
              × ((r.stop ≡ some (Stop.applying m.name)) ⊎ (r.stop ≡ some (Stop.recording m.name)))))

  apply_pending_step :
      (applied : List String) (m : Migration) (migrations : List Migration) (i : Installation S)
      → StopsAt applied m i (apply_pending server applied (m ∷ migrations) i)
        ⊎ ((contains i.ledger m.name ≡ true)
            × (apply_pending server applied (m ∷ migrations) i
                ≡ apply_pending server applied migrations i))
        ⊎ ((contains i.ledger m.name ≡ false)
            × (apply_pending server applied (m ∷ migrations) i
                ≡ apply_pending server (applied ++ m.name ∷ []) migrations (after_file m i)))
  unfolding apply_pending
  apply_pending_step applied m migrations i = ground arith

  pub apply_pending_grows :
      (applied : List String) (migrations : List Migration) (i : Installation S)
      → let (r, i') = apply_pending server applied migrations i in
        (new : List String) × (r.applied ≡ applied ++ new) × (i'.ledger ≡ i.ledger ++ new)
  unfolding apply_pending
  apply_pending_grows applied [] i = ([], sym (append-nil applied), sym (append-nil i.ledger))
  apply_pending_grows applied (m ∷ migrations) i =
      elim (apply_pending_step applied m migrations i) [
        | inl (same, kept, _) ↦
            ([], same ∙ sym (append-nil applied), kept ∙ sym (append-nil i.ledger))
        | inr (inl (_, skips)) ↦ rw skips (apply_pending_grows applied migrations i)
        | inr (inr (_, goes)) ↦
            let (new, done, kept) =
              apply_pending_grows (applied ++ m.name ∷ []) migrations (after_file m i) in
            (
              m.name ∷ new,
              rw goes (done ∙ append_assoc applied (m.name ∷ []) new),
              rw goes (kept ∙ append_assoc i.ledger (m.name ∷ []) new),
            )
      ]

  apply_pending_keeps :
      (applied : List String) (migrations : List Migration) (i : Installation S) (n : String)
      → contains i.ledger n ≡ true
      → contains (apply_pending server applied migrations i).1.ledger n ≡ true
  apply_pending_keeps applied migrations i n e =
      let (new, _, kept) = apply_pending_grows applied migrations i in
      rw kept (contains-append_left i.ledger new n e)

  pub apply_pending_complete :
      (applied : List String) (migrations : List Migration) (i : Installation S)
      → (apply_pending server applied migrations i).0.stop ≡ none
      → AllRecorded migrations (apply_pending server applied migrations i).1.ledger
  apply_pending_complete applied [] i e = tt
  apply_pending_complete applied (m ∷ migrations) i e =
      elim (apply_pending_step applied m migrations i) [
        | inl (same, kept, inl stopped) ↦ absurd (ground arith)
        | inl (same, kept, inr (_, inl stopped)) ↦ absurd (ground arith)
        | inl (same, kept, inr (_, inr stopped)) ↦ absurd (ground arith)
        | inr (inl (old, skips)) ↦ rw skips (
          apply_pending_keeps applied migrations i m.name old,
          apply_pending_complete applied migrations i (rw skips at e),
        )
        | inr (inr (_, goes)) ↦ rw goes (
          apply_pending_keeps (applied ++ m.name ∷ []) migrations (after_file m i) m.name
              (contains-append_new i.ledger m.name),
          apply_pending_complete (applied ++ m.name ∷ []) migrations (after_file m i)
              (rw goes at e),
        )
      ]

  apply_pending_idle :
      (applied : List String) (migrations : List Migration) (i : Installation S)
      → ((s : Stop) → server.fails s ≡ false)
      → AllRecorded migrations i.ledger
      → apply_pending server applied migrations i ≡ (report applied none, i)
  unfolding apply_pending
  apply_pending_idle applied [] i up done = refl
  apply_pending_idle applied (m ∷ migrations) i up (old, done) =
      ground (arith, up (Stop.checking m.name), apply_pending_idle applied migrations i up done)

  -- What a run amounts to: it stops before the loop and changes nothing, it adopts, or it applies.
  pub run_cases :
      (migrations : List Migration) (i : Installation S)
      → ((is_some (run server (some migrations) i).0.stop ≡ true)
          × ((run server (some migrations) i).0.applied ≡ [])
          × ((run server (some migrations) i).1 ≡ i))
        ⊎ ((eqb (length i.ledger) 0 ≡ true)
            × (server.has_user_table i.schema ≡ true)
            × (run server (some migrations) i
                ≡ (report [] none, record i { ledger = adopt (names_of migrations) i.ledger })))
        ⊎ (run server (some migrations) i ≡ apply_pending server [] migrations i)
  unfolding run
  run_cases migrations i = ground arith

  -- A run whose files are all in the ledger, while calls succeed.
  pub run_idle :
      (migrations : List Migration) (i : Installation S)
      → ((s : Stop) → server.fails s ≡ false)
      → AllRecorded migrations i.ledger
      → run server (some migrations) i ≡ (report [] none, i)
  unfolding run
  run_idle [] i up done = ground (arith, up Stop.ensuring)
  run_idle (m ∷ migrations) i up done = ground (
    arith,
    up Stop.ensuring,
    up Stop.counting,
    nonempty i.ledger m.name done.0,
    apply_pending_idle [] (m ∷ migrations) i up done,
  )
