-- ===== src/Connections.antt =====
-- Connect and retry of api/internal/db/pool.go, over any state of the world: which attempts succeed, and
-- when the context is done, are parameters. Durations are natural numbers of nanoseconds.
pub mod Attempts
use ecosystem_complete.Prelude.{
  ℕ, zero, suc, ◌+◌, ◌-◌, ◌*◌, Bool, true, false, not, List, [], ◌∷◌, ℤ, pos, negsuc, ltb,
  if◌then◌else◌,
}

abbrev pub default_connect_attempts : ℕ
default_connect_attempts = 5

abbrev pub default_connect_backoff : ℕ
default_connect_backoff = 500_000_000

abbrev pub max_connect_backoff : ℕ
max_connect_backoff = 2_000_000_000

-- What retry answers: nil, the context's error, or that it gave up after so many attempts.
pub data Outcome : Type 0 where
  done cancelled : Outcome
  gave_up : ℕ → Outcome

-- The context: whether it is done, and whether it is done before a wait has passed.
pub record Context (S : Type 0) : Type 0 where
  pub is_done : S → Bool
  pub wait : ℕ → S → Bool × S

-- A run of retry: what it answers, which attempts succeeded, how long it waited between them.
pub record Run (S : Type 0) : Type 0 where
  pub outcome : Outcome
  pub attempts : List Bool
  pub waits : List ℕ
  pub state : S

-- `backoff *= 2`, up to the bound
abbrev pub next_backoff : ℕ → ℕ
next_backoff backoff =
    if ltb max_connect_backoff (backoff * 2) then max_connect_backoff else backoff * 2

-- The attempts that retry makes at most
abbrev pub at_least_one : ℤ → ℕ
at_least_one (pos n) = if ltb n 1 then 1 else n
at_least_one (negsuc n) = 1

abbrev pub ended : {S : Type 0} → Outcome → List Bool → List ℕ → S → Run S
ended outcome attempts waits s = record {
  outcome = outcome;
  attempts = attempts;
  waits = waits;
  state = s;
}

module _ {S : Type 0} (context : Context S) (op : S → Bool × S) where
  -- The loop of retry, with the rounds that follow this one
  unfoldable pub retry_rounds : ℕ → ℕ → ℕ → S → Run S
  retry_rounds zero total backoff s = elim (context.is_done s) [
    | true ↦ ended cancelled [] [] s
    | false ↦
        let (succeeded, s') = op s in
        elim succeeded [
          | true ↦ ended done (true ∷ []) [] s'
          | false ↦ ended (gave_up total) (false ∷ []) [] s'
        ]
  ]
  retry_rounds (suc rounds) total backoff s = elim (context.is_done s) [
    | true ↦ ended cancelled [] [] s
    | false ↦
        let (succeeded, s1) = op s in
        elim succeeded [
          | true ↦ ended done (true ∷ []) [] s1
          | false ↦
              let (stopped, s2) = context.wait backoff s1 in
              elim stopped [
                | true ↦ ended cancelled (false ∷ []) (backoff ∷ []) s2
                | false ↦
                    let rest = retry_rounds rounds total (next_backoff backoff) s2 in
                    ended rest.outcome (false ∷ rest.attempts) (backoff ∷ rest.waits) rest.state
              ]
        ]
  ]

  -- retry
  unfoldable pub retry : ℤ → ℕ → S → Run S
  unfolding retry_rounds
  retry attempts backoff s =
      retry_rounds (at_least_one attempts - 1) (at_least_one attempts) backoff s

-- pgxpool.New and Pool.Ping
pub record Driver (S : Type 0) : Type 0 where
  pub create : S → Bool × S
  pub ping : S → Bool × S

-- The world, and the pools that are open in it.
pub record Pools (S : Type 0) : Type 0 where
  pub state : S
  pub opened : ℕ

module _ {S : Type 0} (context : Context S) (driver : Driver S) where
  -- The operation that Connect retries: a pool that does not answer is closed.
  unfoldable pub open_pool : Pools S → Bool × Pools S
  open_pool p =
      let (created, s1) = driver.create p.state in
      if not created
      then (false, record p { state = s1 })
      else let (answers, s2) = driver.ping s1 in
        (
          answers,
          record { state = s2; opened = if answers then p.opened + 1 else p.opened + 1 - 1 },
        )

  abbrev pool_context : Context (Pools S)
  pool_context = record {
    is_done = λ p. context.is_done p.state;
    wait = λ d p. let (stopped, s) = context.wait d p.state in (stopped, record p { state = s });
  }

  -- Connect
  unfoldable pub connect : ℤ → Pools S → Run (Pools S)
  unfolding retry open_pool
  connect attempts p = retry pool_context open_pool attempts default_connect_backoff p
