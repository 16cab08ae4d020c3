-- ===== src/Runtime/Exec.antt =====
-- A method with effects: what it did before an error stays done, so the world comes back beside
-- the error too. Transactions are pgx's: statements go to the transaction's own view, Commit
-- publishes it, and the deferred Rollback drops it.
use ecosystem_complete.Prelude.{
  Bool, true, false, Option, none, some, [], ◌∷◌, ◌++◌, ◌||◌, if◌then◌else◌,
}
use ecosystem_complete.Database.{Db}
use ecosystem_complete.Runtime.{Call, Env, World, Message}

-- A Go result with an error: a value, one of the package's sentinel errors, or an error that wraps
-- the failure of a call.
pub data Result (E A : Type 0) : Type 0 where
  ok : A → Result E A
  err : E → Result E A
  failed : Call → Result E A

abbrev pub is_ok : {E A : Type 0} → Result E A → Bool
is_ok (ok _) = true
is_ok _ = false

-- The error is not one of the package's, it wraps the failure of a call.
abbrev pub is_failed : {E A : Type 0} → Result E A → Bool
is_failed (failed _) = true
is_failed _ = false

abbrev pub Exec : Type 0 → Type 0 → Type 0
Exec E A = World → Result E A × World

module _ {E A : Type 0} where
  abbrev pub pure : A → Exec E A
  pure a w = (ok a, w)

  abbrev pub raise : E → Exec E A
  raise e w = (err e, w)

infixl 5 ◌>>=◌ ◌>>◌
abbrev pub ◌>>=◌ : {E A B : Type 0} → Exec E A → (A → Exec E B) → Exec E B
◌>>=◌ m f w =
    let (r, w') = m w in elim r [ ok a ↦ f a w' | err e ↦ (err e, w') | failed c ↦ (failed c, w') ]

abbrev pub ◌>>◌ : {E A B : Type 0} → Exec E A → Exec E B → Exec E B
m >> k = m >>= λ _. k

abbrev pub Action : Type 0 → Type 0
Action E = Exec E (Unit {0})

abbrev pub raise_if : {E : Type 0} → Bool → E → Action E
raise_if b e w = (if b then err e else ok tt, w)

abbrev pub or_raise : {E A : Type 0} → Option A → E → Exec E A
or_raise none e w = (err e, w)
or_raise (some a) e w = (ok a, w)

-- A query that the database refuses.
abbrev pub or_fail : {E A : Type 0} → Option A → Call → Exec E A
or_fail none c w = (failed c, w)
or_fail (some a) c w = (ok a, w)

module _ {E : Type 0} (env : Env) where
  -- A call that only computes or asks.
  abbrev pub attempt : {A : Type 0} → Call → A → Exec E A
  attempt c a w = (if env.fails c then failed c else ok a, w)

  -- Pool.QueryRow
  abbrev pub query : {A : Type 0} → Call → (Db → A) → Exec E A
  query c f w = (if env.fails c then failed c else ok (f w.db), w)

  -- Pool.Exec
  abbrev pub execute : Call → (Db → Db) → Action E
  execute c f w = elim (env.fails c) [
    | true ↦ (failed c, w)
    | false ↦ (ok tt, record w { db = f w.db })
  ]

  -- Pool.Exec of an INSERT that a unique index can refuse
  abbrev pub insert : Call → (Db → Bool) → (Db → Db) → Action E
  insert c taken f w = elim (env.fails c || taken w.db) [
    | true ↦ (failed c, w)
    | false ↦ (ok tt, record w { db = f w.db })
  ]

  -- Pool.Begin
  abbrev pub begin_tx : Call → Action E
  begin_tx c w = elim (env.fails c) [
    | true ↦ (failed c, w)
    | false ↦ (ok tt, record w { tx = some w.db })
  ]

  -- tx.QueryRow; a closed transaction answers with an error
  abbrev pub tx_query : {A : Type 0} → Call → (Db → A) → Exec E A
  tx_query c f w = elim w.tx [
    | none ↦ (failed c, w)
    | some t ↦ (if env.fails c then failed c else ok (f t), w)
  ]

  -- tx.Exec
  abbrev pub tx_execute : Call → (Db → Db) → Action E
  tx_execute c f w = elim w.tx [
    | none ↦ (failed c, w)
    | some t ↦ elim (env.fails c) [
      | true ↦ (failed c, w)
      | false ↦ (ok tt, record w { tx = some (f t) })
    ]
  ]

  -- tx.Exec of an INSERT that a unique index can refuse
  abbrev pub tx_insert : Call → (Db → Bool) → (Db → Db) → Action E
  tx_insert c taken f w = elim w.tx [
    | none ↦ (failed c, w)
    | some t ↦ elim (env.fails c || taken t) [
      | true ↦ (failed c, w)
      | false ↦ (ok tt, record w { tx = some (f t) })
    ]
  ]

  -- tx.Commit
  abbrev pub commit_tx : Call → Action E
  commit_tx c w = elim w.tx [
    | none ↦ (failed c, w)
    | some t ↦ elim (env.fails c) [
      | true ↦ (failed c, w)
      | false ↦ (ok tt, record w { db = t; tx = none })
    ]
  ]

  -- Publisher.Publish of the JSON of the message
  abbrev pub publish : Message → Action E
  publish m w = elim (env.fails Call.publish) [
    | true ↦ (failed Call.publish, w)
    | false ↦ (ok tt, record w { outbox = w.outbox ++ m ∷ [] })
  ]

-- defer func() { if !settled { _ = tx.Rollback(ctx) } }(): a settled transaction is closed, and a
-- rollback of it changes nothing.
abbrev pub with_rollback : {E A : Type 0} → Exec E A → Exec E A
with_rollback m w = let (r, w') = m w in (r, record w' { tx = none })

-- The error of a collaborator, in the error type of its caller.
abbrev pub lift : {D E A : Type 0} → (D → E) → Exec D A → Exec E A
lift f m w =
    let (r, w') = m w in
    elim r [ ok a ↦ (ok a, w') | err e ↦ (err (f e), w') | failed c ↦ (failed c, w') ]
