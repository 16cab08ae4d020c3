-- ===== src/Http/Guards.antt =====
-- authmw.go: who may call a handler.
use Prim.Native.Char.{Char, code}
use Prim.Native.String.{[] as nil, ◌∷◌ as cons}
use ecosystem_complete.Prelude.{
  ◌≡◌, refl, ap, ◌∙◌, ◌⊎◌, inl, inr, String, Bool, true, false, not, Option, none, some, arith,
  ◌==◌, eqb, Option-cases, Bool-cases, if◌then◌else◌,
}
use ecosystem_complete.Prelude.Text.{trim_space, translate}
use ecosystem_complete.Runtime.{Env, World}
use ecosystem_complete.Runtime.Exec.{Result, ok, err, failed, is_failed}
use ecosystem_complete.Identity.{Error, can}
use ecosystem_complete.Identity.Capabilities.{holds, can-holds}
use ecosystem_complete.Http.{Request, Reply, Handler, reply, write_error, internal_error}

abbrev lower_ascii : Char → Char
lower_ascii c = translate "ABCDEFGHIJKLMNOPQRSTUVWXYZ" "abcdefghijklmnopqrstuvwxyz" c c

-- The rest after a prefix, which is compared without regard to case.
unfoldable pub after_prefix : String → String → Option String
after_prefix nil s = some s
after_prefix (cons a prefix) nil = none
after_prefix (cons a prefix) (cons c s) =
    let rest = after_prefix prefix s in
    if eqb (code (lower_ascii a)) (code (lower_ascii c)) then rest else none

-- bearerToken
unfoldable pub bearer_token : Request → Option String
unfolding after_prefix trim_space
bearer_token r = elim (after_prefix "Bearer " r.authorization) [
  | none ↦ none
  | some rest ↦ if trim_space rest == "" then none else some (trim_space rest)
]

abbrev pub unauthorized : Reply
unauthorized = write_error 401 "unauthorized"

-- RequireAuth; the parser is that of the JWT library, and the handler takes the subject. userIDFrom
-- answers no user for an empty subject.
unfoldable pub require_auth : (String → Option String) → (String → Handler) → Request → Handler
unfolding bearer_token
require_auth parse next r = elim (bearer_token r) [
  | none ↦ reply unauthorized
  | some raw ↦ elim (parse raw) [ none ↦ reply unauthorized | some subject ↦ next subject ]
]

-- What RequirePermission does with the answer of Can
unfoldable pub decide : (String → Handler) → String → Result Error Bool → Handler
decide next user_id (ok allowed) w =
    if not allowed then (write_error 403 "permission_denied", w) else next user_id w
decide next user_id (err e) w = (internal_error, w)
decide next user_id (failed c) w = (internal_error, w)

-- RequirePermission
unfoldable pub require_permission :
    Env → (String → String → Bool) → String → (String → Handler) → String → Handler
unfolding can decide
require_permission env order permission next user_id w =
    if user_id == ""
    then (unauthorized, w)
    else let (r, w') = can env order user_id permission w in decide next user_id r w'

-- admin of router.go
unfoldable pub admin :
    Env
    → (String → String → Bool)
    → (String → Option String)
    → (String → Handler)
    → Request
    → Handler
unfolding require_auth require_permission
admin env order parse next = require_auth parse (require_permission env order "admin.access" next)

module _ (env : Env) (order : String → String → Bool) (next : String → Handler) (w : World) where
  abbrev pub IsTurnedAway : Reply × World → Type 0
  IsTurnedAway (r, w') =
      (w' ≡ w)
      × ((r ≡ write_error 401 "unauthorized")
          ⊎ (r ≡ write_error 403 "permission_denied")
          ⊎ (r ≡ write_error 500 "internal_error"))

  decided :
      (held : Bool) (user_id : String) (r : Result Error Bool) (w' : World)
      → w' ≡ w
      → (r ≡ ok held) ⊎ (is_failed r ≡ true)
      → IsTurnedAway (decide next user_id r w')
        ⊎ ((held ≡ true) × (decide next user_id r w' ≡ next user_id w))
  unfolding decide
  decided held user_id (ok true) w' kept (inl e) = inr (ground arith, ap (next user_id) kept)
  decided held user_id (ok false) w' kept (inl e) = inl (kept, inr (inl refl))
  decided held user_id (ok a) w' kept (inr e) = ground arith
  decided held user_id (err x) w' kept e = inl (kept, inr (inr refl))
  decided held user_id (failed x) w' kept e = inl (kept, inr (inr refl))

  can_decided :
      (permission user_id : String)
      → let (r, w') = can env order user_id permission w in
        IsTurnedAway (decide next user_id r w')
        ⊎ ((holds user_id permission w.db ≡ true) × (decide next user_id r w' ≡ next user_id w))
  can_decided permission user_id =
      let (kept, answer) = can-holds env order user_id permission w in
      decided (holds user_id permission w.db) user_id (can env order user_id permission w).0
        (can env order user_id permission w).1 kept
        (elim answer [ inl e ↦ inl e | inr (e, _) ↦ inr e ])

  permission_outcome :
      (permission user_id : String)
      → IsTurnedAway (require_permission env order permission next user_id w)
        ⊎ ((holds user_id permission w.db ≡ true)
            × (require_permission env order permission next user_id w ≡ next user_id w))
  unfolding require_permission
  permission_outcome permission user_id = elim (Bool-cases (user_id == "")) [
    | inl e ↦ inl (rw e refl, inl (rw e refl))
    | inr e ↦ rw e (can_decided permission user_id)
  ]

-- An admin request is turned away with nothing changed, as 401, 403 or 500, or else it has a bearer
-- token, whose subject is granted "admin.access" by a live role at that moment, and it answers and
-- changes what the handler answers and changes for that subject.
pub admin_guard :
    (env : Env) (order : String → String → Bool) (parse : String → Option String)
    (next : String → Handler) (r : Request) (w : World)
    → IsTurnedAway env order next w (admin env order parse next r w)
      ⊎ ((raw : String) × (subject : String) × (bearer_token r ≡ some raw)
          × (parse raw ≡ some subject)
          × (holds subject "admin.access" w.db ≡ true)
          × (admin env order parse next r w ≡ next subject w))
unfolding admin
admin_guard env order parse next r w = elim (Option-cases (bearer_token r)) [
  | inl e ↦
      let away : admin env order parse next r w ≡ (unauthorized, w) =
        rw (e, admin, require_auth) refl in
      inl (ap (λ p. p.1) away, inl (ap (λ p. p.0) away))
  | inr (raw, e) ↦ elim (Option-cases (parse raw)) [
    | inl e' ↦
        let away : admin env order parse next r w ≡ (unauthorized, w) =
          rw (e, e', admin, require_auth) refl in
        inl (ap (λ p. p.1) away, inl (ap (λ p. p.0) away))
    | inr (subject, e') ↦
        let passed : admin env order parse next r w
            ≡ require_permission env order "admin.access" next subject w =
          rw (e, e', admin, require_auth) refl in
        elim (permission_outcome env order next w "admin.access" subject) [
          | inl away ↦ inl (rw passed away)
          | inr (granted, run) ↦ inr (raw, subject, e, e', granted, passed ∙ run)
        ]
  ]
]
