-- ===== src/Routes/Health/Verdict.antt =====
-- The status code of the health check as a matter of its probes.
use dev_zu_smart_ingest.Prelude.{
  ℕ, ◌≡◌, refl, arith, Bool, true, false, not, ◌&&◌, ◌||◌, if◌then◌else◌, String, str_eq,
}
use dev_zu_smart_ingest.Prelude.Outcome.{Outcome}
use dev_zu_smart_ingest.Routes.Health.{
  Inspected, Probed, Probes, safe_probe, is_healthy, aggregate_status, dependencies_of,
  health_check, any_critical, any_optional,
}
use dev_zu_smart_ingest.Dict.{get}

abbrev pub up : ℕ × Probed → Bool
unfolding safe_probe
up (elapsed_ms, p) = is_healthy (safe_probe elapsed_ms p)

-- The status as the documentation of the endpoint words it.
abbrev pub graded : (critical optional : Bool) → String
graded critical optional =
    if not critical then "unhealthy" else if optional then "healthy" else "degraded"

abbrev pub verdict : Probes → String
verdict p =
    graded (up p.postgres && up p.redis) (up p.ollama && (up p.chromadb && up p.elasticsearch))

abbrev status_code_of : String → ℕ
status_code_of s = if str_eq s "healthy" || str_eq s "degraded" then 200 else 503

graded_code :
    (critical optional : Bool)
    → status_code_of (graded critical optional) ≡ (if critical then 200 else 503)
graded_code true true = refl
graded_code true false = refl
graded_code false optional = refl

aggregate_status-verdict : (p : Probes) → aggregate_status (dependencies_of p) ≡ verdict p
unfolding aggregate_status dependencies_of any_critical any_optional get
aggregate_status-verdict p = ground arith

-- The service is unhealthy, and answered 503, if and only if postgres or redis is not healthy. Else it
-- is answered 200, as healthy if the other three dependencies are, and as degraded if not.
pub health_check-verdict :
    (p : Probes) (celery : Outcome (Inspected × Inspected))
    → ((health_check p celery).status ≡ verdict p)
      × ((health_check p celery).status_code ≡ (if up p.postgres && up p.redis then 200 else 503))
unfolding health_check
health_check-verdict p celery = (
  aggregate_status-verdict p,
  rw (aggregate_status-verdict p) (
      graded_code (up p.postgres && up p.redis)
        (up p.ollama && (up p.chromadb && up p.elasticsearch))),
)
