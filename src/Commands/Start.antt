-- ===== src/Commands/Start.antt =====
-- run and bootstrapSchema of api/cmd/api/main.go: how the API starts and stops. What the requests do
-- to the database, and how listening and Shutdown end, is a parameter.
use ecosystem_complete.Prelude.{
  ◌-◌, ◌≡◌, refl, ◌⊎◌, inl, inr, Bool, true, false, Option, none, some, List, arith, pos,
  Bool-cases, Option-cases,
}
use ecosystem_complete.Config.{Config, Loaded, ok, missing, invalid}
use ecosystem_complete.Connections.{
  Outcome, done, cancelled, gave_up, Context, Driver, Pools, Run, connect, default_connect_attempts,
}
use ecosystem_complete.Connections.Attempts.{connect_opened}
use ecosystem_complete.Migrations.{Migration, Stop, Server, Installation, run}
use ecosystem_complete.Migrations.Loop.{AllRecorded}
use ecosystem_complete.Migrations.Runs.{recorded_after}

-- How serving ends: nil after a shutdown, or an error.
pub data Served : Type 0 where
  stopped listen_failed shutdown_failed : Served

-- What run returns.
pub data Exit : Type 0 where
  config_refused : Exit
  not_connected : Outcome → Exit
  schema_refused : Stop → Exit
  served : Served → Exit

abbrev pub is_served : Exit → Bool
is_served (served _) = true
is_served _ = false

module _ {D : Type 0} (server : Server D) (files : Option (List Migration)) where
  -- bootstrapSchema
  unfoldable pub bootstrap_schema : Config → Installation D → Option Stop × Installation D
  unfolding run
  bootstrap_schema cfg i = elim cfg.auto_migrate [
    | false ↦ (none, i)
    | true ↦ let (report, i') = run server files i in (report.stop, i')
  ]

  module _ (serving : Config → Installation D → Served × Installation D) where
    -- run after Connect, with the deferred Close of the pool
    unfoldable pub run_connected : Config → Pools (Installation D) → Exit × Pools (Installation D)
    unfolding bootstrap_schema
    run_connected cfg p =
        let (stop, i) = bootstrap_schema cfg p.state in
        elim stop [
          | some s ↦ (schema_refused s, record { state = i; opened = p.opened - 1 })
          | none ↦
              let (ending, i') = serving cfg i in
              (served ending, record { state = i'; opened = p.opened - 1 })
        ]

    module _ (context : Context (Installation D)) (driver : Driver (Installation D)) where
      unfoldable pub run_configured :
          Config → Pools (Installation D) → Exit × Pools (Installation D)
      unfolding connect run_connected
      run_configured cfg p =
          let attempts = connect context driver (pos default_connect_attempts) p in
          elim attempts.outcome [
            | done ↦ run_connected cfg attempts.state
            | cancelled ↦ (not_connected cancelled, attempts.state)
            | gave_up n ↦ (not_connected (gave_up n), attempts.state)
          ]

      -- run
      unfoldable pub run_api : Loaded → Pools (Installation D) → Exit × Pools (Installation D)
      unfolding run_configured
      run_api (ok cfg) p = run_configured cfg p
      run_api (missing _) p = (config_refused, p)
      run_api (invalid _) p = (config_refused, p)

module _ {D : Type 0} (server : Server D) (migrations : List Migration)
    (serving : Config → Installation D → Served × Installation D)
    (context : Context (Installation D)) (driver : Driver (Installation D)) where
  -- What holds when the server starts: the schema files are recorded, unless that is switched off.
  abbrev pub IsPrepared : Config → Installation D → Type 0
  IsPrepared cfg i = (cfg.auto_migrate ≡ false) ⊎ AllRecorded migrations i.ledger

  bootstrap_schema-IsPrepared :
      (cfg : Config) (i : Installation D)
      → (bootstrap_schema server (some migrations) cfg i).0 ≡ none
      → IsPrepared cfg (bootstrap_schema server (some migrations) cfg i).1
  unfolding bootstrap_schema
  bootstrap_schema-IsPrepared cfg i e = elim (Bool-cases cfg.auto_migrate) [
    | inr off ↦ inl off
    | inl on ↦ inr (rw on (recorded_after server migrations i (rw on at e)))
  ]

  -- The API has served with this configuration, from these tables and this ledger.
  abbrev pub HasServed : Config → Installation D → Exit × Pools (Installation D) → Type 0
  HasServed cfg i (exit, p) =
      IsPrepared cfg i × (exit ≡ served (serving cfg i).0) × (p.state ≡ (serving cfg i).1)

  run_connected_lem :
      (cfg : Config) (p : Pools (Installation D))
      → let r = run_connected server (some migrations) serving cfg p in
        (r.1.opened ≡ p.opened - 1)
        × ((is_served r.0 ≡ false)
            ⊎ HasServed cfg (bootstrap_schema server (some migrations) cfg p.state).1 r)
  unfolding run_connected
  run_connected_lem cfg p =
      elim (Option-cases (bootstrap_schema server (some migrations) cfg p.state).0) [
        | inr (stop, e) ↦ rw (e, run_connected) (refl, inl refl)
        | inl e ↦
            rw (e, run_connected)
              (refl, inr (bootstrap_schema-IsPrepared cfg p.state e, refl, refl))
      ]

  abbrev attempted : Pools (Installation D) → Run (Pools (Installation D))
  attempted p = connect context driver (pos default_connect_attempts) p

  run_configured_lem :
      (cfg : Config) (p : Pools (Installation D)) (o : Outcome)
      → (attempted p).outcome ≡ o
      → let r = run_configured server (some migrations) serving context driver cfg p in
        (r.1.opened ≡ p.opened)
        × ((is_served r.0 ≡ false)
            ⊎ ((cfg' : Config) × (i : Installation D) × (ok cfg ≡ ok cfg')
                × ((attempted p).outcome ≡ done)
                × HasServed cfg' i r))
  unfolding run_configured
  run_configured_lem cfg p cancelled e =
      rw (e, run_configured)
        (
          ground (arith, connect_opened context driver (pos default_connect_attempts) p, e),
          inl refl,
        )
  run_configured_lem cfg p (gave_up n) e =
      rw (e, run_configured)
        (
          ground (arith, connect_opened context driver (pos default_connect_attempts) p, e),
          inl refl,
        )
  run_configured_lem cfg p done e =
      let (opened, how) = run_connected_lem cfg (attempted p).state in
      rw (e, run_configured)
        (
          ground (arith, opened, connect_opened context driver (pos default_connect_attempts) p, e),
          elim how [
            | inl away ↦ inl away
            | inr has ↦ inr (
              cfg,
              (bootstrap_schema server (some migrations) cfg (attempted p).state.state).1,
              refl,
              refl,
              has,
            )
          ],
        )

  -- However it ends, run leaves as many pools open as before. It serves only with a configuration that
  -- Load accepts, after Connect has succeeded, and with every schema file in the ledger, unless
  -- the configuration switches that off; otherwise it returns an error.
  pub run_api_lem :
      (loaded : Loaded) (p : Pools (Installation D))
      → let r = run_api server (some migrations) serving context driver loaded p in
        (r.1.opened ≡ p.opened)
        × ((is_served r.0 ≡ false)
            ⊎ ((cfg : Config) × (i : Installation D) × (loaded ≡ ok cfg)
                × ((connect context driver (pos default_connect_attempts) p).outcome ≡ done)
                × HasServed cfg i r))
  unfolding run_api
  run_api_lem (missing _) p = (refl, inl refl)
  run_api_lem (invalid _) p = (refl, inl refl)
  run_api_lem (ok cfg) p =
      run_configured_lem cfg p (connect context driver (pos default_connect_attempts) p).outcome
        refl
