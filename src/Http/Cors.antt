-- ===== src/Http/Cors.antt =====
-- cors.go: what a page of another origin may read.
use ecosystem_complete.Prelude.{
  ◌≡◌, refl, ap, ◌⊎◌, inl, inr, String, Bool, true, false, ◌&&◌, not, none, some, List, ◌==◌,
  Bool-cases, if◌then◌else◌,
}
use ecosystem_complete.Prelude.Sort.{contains}
use ecosystem_complete.Config.{keep_pieces}
use ecosystem_complete.Runtime.{World}
use ecosystem_complete.Http.{Request, Reply, Handler, answer}

-- The origin of the request is on the list that CORS normalizes.
unfoldable pub is_trusted : List String → Request → Bool
unfolding keep_pieces contains
is_trusted allowed r = if r.origin == "" then false else contains (keep_pieces allowed) r.origin

abbrev pub is_preflight : Request → Bool
is_preflight r = (r.http_method == "OPTIONS") && not (r.requested_method == "")

abbrev pub preflight_answer : Request → Reply
preflight_answer r = record (answer 204) { allow_origin = some r.origin; allow_methods = true }

-- CORS; an empty list trusts no origin.
unfoldable pub cors : List String → (Request → Handler) → Request → Handler
unfolding is_trusted
cors allowed next r w =
    if not (is_trusted allowed r)
    then next r w
    else if is_preflight r
    then (preflight_answer r, w)
    else let (answered, w') = next r w in (record answered { allow_origin = some r.origin }, w')

-- A preflight from a trusted origin is answered 204 with that origin, without running a handler, and
-- changes nothing. Any other request does and answers what it would without CORS, but that the answer
-- names the origin exactly if it is trusted, where handlers name none.
pub cors_lem :
    (allowed : List String) (next : Request → Handler) (r : Request) (w : World)
    → (next r w).0.allow_origin ≡ none
    → let (answered, w') = cors allowed next r w in
      ((is_trusted allowed r ≡ true)
        × (is_preflight r ≡ true)
        × (answered ≡ preflight_answer r)
        × (w' ≡ w))
      ⊎ ((answered ≡ record (next r w).0 {
        allow_origin = if is_trusted allowed r then some r.origin else none;
      })
          × (w' ≡ (next r w).1))
unfolding cors
cors_lem allowed next r w silent = elim (Bool-cases (is_trusted allowed r)) [
  | inl t ↦ elim (Bool-cases (is_preflight r)) [
    | inl p ↦ inl (t, p, rw (t, p, cors) refl, rw (t, p, cors) refl)
    | inr p ↦ inr (rw (t, p, cors) refl, rw (t, p, cors) refl)
  ]
  | inr t ↦
      inr (
        rw (t, cors) (ap (λ o. record (next r w).0 { allow_origin = o }) silent),
        rw (t, cors) refl,
      )
]
