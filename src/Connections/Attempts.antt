-- ===== src/Connections/Attempts.antt =====
-- What a run of retry has tried, how long it waits, and what Connect leaves open.
use mathlib.Core.Path.{subst}
use ecosystem_complete.Prelude.{
  ℕ, zero, suc, ◌+◌, ◌-◌, ◌≤◌, ◌≡◌, refl, inl, inr, Bool, true, false, ◌&&◌, not, List, [], ◌∷◌,
  arith, ℤ, length, leb, Bool-cases,
}
use ecosystem_complete.Connections.{
  Outcome, done, cancelled, gave_up, Context, Run, Driver, Pools, next_backoff, at_least_one,
  max_connect_backoff, default_connect_backoff, retry_rounds, retry, ended, open_pool, pool_context,
  connect,
}

-- All attempts failed.
unfoldable pub all_failed : List Bool → Bool
all_failed [] = true
all_failed (b ∷ attempts) = not b && all_failed attempts

-- All attempts failed but the last.
unfoldable pub last_succeeded : List Bool → Bool
last_succeeded [] = false
last_succeeded (true ∷ []) = true
last_succeeded (true ∷ _ ∷ _) = false
last_succeeded (false ∷ attempts) = last_succeeded attempts

unfoldable pub all_at_most : ℕ → List ℕ → Bool
all_at_most bound [] = true
all_at_most bound (wait ∷ waits) = leb wait bound && all_at_most bound waits

-- What an answer says of the attempts, where `rounds` are left of `total`.
abbrev pub Accounts : ℕ → ℕ → Outcome → List Bool → Type 0
Accounts rounds total done attempts = last_succeeded attempts ≡ true
Accounts rounds total cancelled attempts = all_failed attempts ≡ true
Accounts rounds total (gave_up n) attempts =
    (all_failed attempts ≡ true) × (length attempts ≡ rounds) × (n ≡ total)

one_more :
    (rounds total : ℕ) (outcome : Outcome) (attempts : List Bool)
    → Accounts rounds total outcome attempts
    → Accounts (suc rounds) total outcome (false ∷ attempts)
unfolding all_failed last_succeeded
one_more rounds total done attempts h = h
one_more rounds total cancelled attempts h = h
one_more rounds total (gave_up n) attempts h = (h.0, omega (arith, h.1), h.2)

abbrev pub IsBounded : {S : Type 0} → ℕ → Run S → Type 0
IsBounded rounds run =
    (length run.attempts ≤ rounds)
    × (length run.waits ≤ length run.attempts)
    × (all_at_most max_connect_backoff run.waits ≡ true)

module _ {S : Type 0} (context : Context S) (op : S → Bool × S) where
  -- To prove a property of all runs, prove it of each way in which a round ends.
  module _ (total : ℕ) (P : ℕ → ℕ → S → Run S → Type 0)
      (at_once : (r b : ℕ) (s : S) → P r b s (ended cancelled [] [] s))
      (succeeds : (r b : ℕ) (s : S)
        → (op s).0 ≡ true
        → P r b s (ended done (true ∷ []) [] (op s).1))
      (gives_up : (b : ℕ) (s : S)
        → (op s).0 ≡ false
        → P 0 b s (ended (gave_up total) (false ∷ []) [] (op s).1))
      (interrupted : (r b : ℕ) (s : S)
        → (op s).0 ≡ false
        → P (suc r) b s (ended cancelled (false ∷ []) (b ∷ []) (context.wait b (op s).1).1))
      (again : (r b : ℕ) (s : S) (run : Run S)
        → (op s).0 ≡ false
        → P r (next_backoff b) (context.wait b (op s).1).1 run
        → P (suc r) b s (ended run.outcome (false ∷ run.attempts) (b ∷ run.waits) run.state)) where
    retry_rounds_induction : (r b : ℕ) (s : S) → P r b s (retry_rounds context op r total b s)
    unfolding retry_rounds
    retry_rounds_induction zero b s = elim (Bool-cases (context.is_done s)) [
      | inl e ↦ rw (e, retry_rounds) (at_once 0 b s)
      | inr e ↦ elim (Bool-cases (op s).0) [
        | inl e' ↦ rw (e, e', retry_rounds) (succeeds 0 b s e')
        | inr e' ↦ rw (e, e', retry_rounds) (gives_up b s e')
      ]
    ]
    retry_rounds_induction (suc r) b s = elim (Bool-cases (context.is_done s)) [
      | inl e ↦ rw (e, retry_rounds) (at_once (suc r) b s)
      | inr e ↦ elim (Bool-cases (op s).0) [
        | inl e' ↦ rw (e, e', retry_rounds) (succeeds (suc r) b s e')
        | inr e' ↦ elim (Bool-cases (context.wait b (op s).1).0) [
          | inl e'' ↦ rw (e, e', e'', retry_rounds) (interrupted r b s e')
          | inr e'' ↦
              rw (e, e', e'', retry_rounds)
                (again r b s _ e'
                  (retry_rounds_induction r (next_backoff b) (context.wait b (op s).1).1))
        ]
      ]
    ]

  rounds-Accounts :
      (r total b : ℕ) (s : S)
      → let run = retry_rounds context op r total b s in
        Accounts (suc r) total run.outcome run.attempts
  unfolding all_failed last_succeeded
  rounds-Accounts r total =
      retry_rounds_induction total (λ k c t run. Accounts (suc k) total run.outcome run.attempts)
        (λ k c t. refl) (λ k c t e. refl) (λ c t e. (refl, refl, refl)) (λ k c t e. refl)
        (λ k c t run e h. one_more (suc k) total run.outcome run.attempts h) r

  rounds-IsBounded :
      (r total b : ℕ) (s : S)
      → b ≤ max_connect_backoff
      → IsBounded (suc r) (retry_rounds context op r total b s)
  unfolding all_at_most
  rounds-IsBounded r total =
      retry_rounds_induction total (λ k c t run. c ≤ max_connect_backoff → IsBounded (suc k) run)
        (λ k c t h. ground arith) (λ k c t e h. ground arith) (λ c t e h. ground arith)
        (λ k c t e h. ground arith) (λ k c t run e step h. ground (arith, step)) r

  -- The answer of retry tells what it tried: nil that the last attempt succeeded and none before it, the
  -- context's error that every attempt failed, and giving up that all the allowed attempts were made
  -- and failed. It never makes more attempts than allowed, at least one being allowed, and waits less
  -- often than it tries or as often, and never longer than two seconds if it starts below that.
  pub retry-Accounts :
      (attempts : ℤ) (backoff : ℕ) (s : S)
      → backoff ≤ max_connect_backoff
      → let run = retry context op attempts backoff s in
        Accounts (at_least_one attempts) (at_least_one attempts) run.outcome run.attempts
        × IsBounded (at_least_one attempts) run
  unfolding retry
  retry-Accounts attempts backoff s small =
      let n = at_least_one attempts in
      let run = retry_rounds context op (n - 1) n backoff s in
      let e : suc (n - 1) ≡ n = ground arith in
      (
        subst (λ k. Accounts k n run.outcome run.attempts) e (rounds-Accounts (n - 1) n backoff s),
        subst (λ k. IsBounded k run) e (rounds-IsBounded (n - 1) n backoff s small),
      )

-- Connect leaves one pool more open than before when it succeeds, and otherwise as many as before.
pub connect_opened :
    {S : Type 0} (context : Context S) (driver : Driver S) (attempts : ℤ) (p : Pools S)
    → let run = connect context driver attempts p in
      run.state.opened
      ≡ (p.opened + (elim run.outcome [ done ↦ 1 | cancelled ↦ 0 | gave_up _ ↦ 0 ]))
unfolding connect retry open_pool
connect_opened context driver attempts p =
    retry_rounds_induction (pool_context context driver) (open_pool context driver)
      (at_least_one attempts)
      (λ r b q run.
        run.state.opened
        ≡ (q.opened + (elim run.outcome [ done ↦ 1 | cancelled ↦ 0 | gave_up _ ↦ 0 ])))
      (λ r b q. ground arith) (λ r b q e. ground arith) (λ b q e. ground arith)
      (λ r b q e. ground arith) (λ r b q run e h. ground (arith, h)) (at_least_one attempts - 1)
      default_connect_backoff p
