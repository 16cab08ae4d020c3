-- ===== src/Http/Health.antt =====
-- health.go: the readiness report.
use mathlib.Core.List.{append-nil, append_assoc}
use ecosystem_complete.Prelude.{
  ℕ, ◌≡◌, String, Bool, false, ◌&&◌, ◌||◌, not, List, [], ◌∷◌, ◌++◌, arith, exists_where, map, ◌∙◌,
  if◌then◌else◌,
}

-- A probe's name, whether it is required, and whether its check fails within the timeout.
pub record Probe : Type 0 where
  pub name : String
  pub required : Bool
  pub fails : Bool

pub record Check : Type 0 where
  pub name : String
  pub status : String
  pub required : Bool

pub record Ready : Type 0 where
  pub code : ℕ
  pub status : String
  pub checks : List Check

abbrev pub check_of : Probe → Check
check_of p = record {
  name = p.name;
  status = if p.fails then "error" else "ok";
  required = p.required;
}

-- The loop of ready, with its two flags
unfoldable pub run_probes : List Probe → List Check → Bool → Bool → Ready
run_probes [] checks required_failed optional_failed =
    let status =
      if required_failed then "unavailable" else if optional_failed then "degraded" else "ok" in
    record {
      code = if not required_failed && not optional_failed then 200 else 503;
      status = status;
      checks = checks;
    }
run_probes (p ∷ probes) checks required_failed optional_failed =
    run_probes probes (checks ++ check_of p ∷ []) (required_failed || (p.fails && p.required))
      (optional_failed || (p.fails && not p.required))

-- health.ready
unfoldable pub ready : List Probe → Ready
unfolding run_probes
ready probes = run_probes probes [] false false

abbrev pub failed_required : Probe → Bool
failed_required p = p.fails && p.required

abbrev pub failed_optional : Probe → Bool
failed_optional p = p.fails && not p.required

run_probes_lem :
    (probes : List Probe) (checks : List Check) (a b : Bool)
    → let report = run_probes probes checks a b in
      (report.status ≡ (
        if a || exists_where failed_required probes
        then "unavailable"
        else if b || exists_where failed_optional probes
        then "degraded"
        else "ok"))
      × (report.checks ≡ checks ++ map check_of probes)
      × (report.code ≡ (if a || b || exists_where (λ p. p.fails) probes then 503 else 200))
unfolding run_probes exists_where
run_probes_lem [] checks a b = (ground arith, ground (arith, append-nil checks), ground arith)
run_probes_lem (p ∷ probes) checks a b =
    let (status, all, code) =
      run_probes_lem probes (checks ++ check_of p ∷ []) (a || failed_required p)
        (b || failed_optional p) in
    (
      ground (arith, status),
      all ∙ append_assoc checks (check_of p ∷ []) (map check_of probes),
      ground (arith, code),
    )

-- The report is "unavailable" if a required probe fails, "degraded" if only optional ones do, and "ok"
-- if none does, it answers 503 exactly if some probe fails, and it lists every probe once, in order.
pub ready_lem :
    (probes : List Probe)
    → let report = ready probes in
      (report.status ≡ (
        if exists_where failed_required probes
        then "unavailable"
        else if exists_where failed_optional probes
        then "degraded"
        else "ok"))
      × (report.checks ≡ map check_of probes)
      × (report.code ≡ (if exists_where (λ p. p.fails) probes then 503 else 200))
unfolding ready
ready_lem probes = run_probes_lem probes [] false false
