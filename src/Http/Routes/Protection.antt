-- ===== src/Http/Routes/Protection.antt =====
-- Who reaches the handlers of the protected routes.
use ecosystem_complete.Prelude.{
  ◌≡◌, refl, ◌∙◌, ◌⊎◌, inl, inr, String, true, false, Option, some, arith, ◌==◌, Option-cases,
  Bool-cases, eq_iff,
}
use ecosystem_complete.Runtime.{Env, World}
use ecosystem_complete.Identity.Capabilities.{holds}
use ecosystem_complete.Http.{Request, Handler}
use ecosystem_complete.Http.Guards.{
  unauthorized, bearer_token, require_auth, admin, IsTurnedAway, admin_guard,
}
use ecosystem_complete.Http.Admin.{not_found}
use ecosystem_complete.Http.Routes.{
  Route, Options, Services, Guard, guard_of, offers, serve, admin_handler, user_handler,
}
use ecosystem_complete.Http.Routes.Paths.{
  is_administration, is_personal, administration-guarded, personal-guarded,
}

require_auth_outcome :
    (parse : String → Option String) (next : String → Handler) (r : Request) (w : World)
    → (require_auth parse next r w ≡ (unauthorized, w))
      ⊎ ((raw : String) × (subject : String) × (bearer_token r ≡ some raw)
          × (parse raw ≡ some subject)
          × (require_auth parse next r w ≡ next subject w))
unfolding require_auth
require_auth_outcome parse next r w = elim (Option-cases (bearer_token r)) [
  | inl e ↦ inl (rw (e, require_auth) refl)
  | inr (raw, e) ↦ elim (Option-cases (parse raw)) [
    | inl e' ↦ inl (rw (e, e', require_auth) refl)
    | inr (subject, e') ↦ inr (raw, subject, e, e', rw (e, e', require_auth) refl)
  ]
]

module _ (env : Env) (s : Services) (r : Request) (o : Options) (route : Route) (w : World) where
  -- A request to a path under /v1/admin/ that New has not registered answers 404; otherwise the
  -- request is turned away as 401, 403 or 500, all with nothing changed, or else its bearer token is
  -- one of a subject who holds "admin.access" at that moment, and the route's handler runs for that
  -- subject.
  pub serve_administrators :
      is_administration route ≡ true
      → ((offers o route ≡ false) × (serve env s r o route w ≡ (not_found, w)))
        ⊎ IsTurnedAway env s.collation (admin_handler env s r route) w (serve env s r o route w)
        ⊎ ((raw : String) × (subject : String) × (bearer_token r ≡ some raw)
            × (s.parse_token raw ≡ some subject)
            × (holds subject "admin.access" w.db ≡ true)
            × (serve env s r o route w ≡ admin_handler env s r route subject w))
  unfolding serve
  serve_administrators inside = elim (Bool-cases (offers o route)) [
    | inr e ↦ inl (e, rw (e, serve) refl)
    | inl e ↦
        let guarded = administration-guarded route inside in
        let passed : serve env s r o route w
            ≡ admin env s.collation s.parse_token (admin_handler env s r route) r w =
          rw (e, guarded, serve) refl in
        inr
          (rw passed (admin_guard env s.collation s.parse_token (admin_handler env s r route) r w))
  ]

  user_handler_anonymous :
      guard_of route ≡ Guard.signed_in → user_handler env s r route "" w ≡ (unauthorized, w)
  unfolding user_handler guard_of
  user_handler_anonymous guarded = ground arith

  -- A request to /v1/me, /v1/auth/password/change, /v1/auth/email/change or its /verify answers 404
  -- where New has not registered the path; otherwise it answers 401, both with nothing changed, or
  -- else its bearer token is one of a subject that is not empty, and the route's handler runs for that
  -- subject.
  pub serve-signed_in :
      is_personal route ≡ true
      → ((offers o route ≡ false) × (serve env s r o route w ≡ (not_found, w)))
        ⊎ (serve env s r o route w ≡ (unauthorized, w))
        ⊎ ((raw : String) × (subject : String) × (bearer_token r ≡ some raw)
            × (s.parse_token raw ≡ some subject)
            × ((subject == "") ≡ false)
            × (serve env s r o route w ≡ user_handler env s r route subject w))
  unfolding serve
  serve-signed_in personal = elim (Bool-cases (offers o route)) [
    | inr e ↦ inl (e, rw (e, serve) refl)
    | inl e ↦
        let guarded = personal-guarded route personal in
        let passed : serve env s r o route w
            ≡ require_auth s.parse_token (user_handler env s r route) r w =
          rw (e, guarded, serve) refl in
        elim (require_auth_outcome s.parse_token (user_handler env s r route) r w) [
          | inl away ↦ inr (inl (passed ∙ away))
          | inr (raw, subject, sent, parsed, run) ↦ elim (Bool-cases (subject == "")) [
            | inr named ↦ inr (inr (raw, subject, sent, parsed, named, passed ∙ run))
            | inl blank ↦
                let anonymous : user_handler env s r route subject w ≡ (unauthorized, w) =
                  rw ((eq_iff subject "").0 blank) (user_handler_anonymous guarded) in
                inr (inl (passed ∙ run ∙ anonymous))
          ]
        ]
  ]
