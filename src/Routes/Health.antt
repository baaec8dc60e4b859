-- ===== src/Routes/Health.antt =====
-- api/routes/health.py: the probes of the dependencies and the status that they add up to. What a
-- probe meets, the milliseconds that it takes and whether the queue answers are arguments.
pub mod Verdict
use dev_zu_smart_ingest.Prelude.{
  String, ℕ, ◌+◌, Option, none, some, List, [], ◌∷◌, ◌++◌, Bool, true, false, not, ◌&&◌, ◌||◌,
  str_eq, ◌==◌, if◌then◌else◌, length,
}
use dev_zu_smart_ingest.Prelude.Int.{ℤ, pos, negsuc}
use dev_zu_smart_ingest.Prelude.Outcome.{Exception, Outcome, returned, raised}
use dev_zu_smart_ingest.Text.{Text, codes, describe}
use dev_zu_smart_ingest.Text.Number.{int_text}
use dev_zu_smart_ingest.Dict.{get}

pub record Dependency : Type 0 where
  pub status : String
  pub latency_ms : ℕ
  pub error : Option Text

-- `asyncio.wait_for` on a probe: its answer, the timeout, or another exception.
pub data Probed : Type 0 where
  finished : (status : String) (latency_ms : ℕ) (error : Option Text) → Probed
  timed_out : Probed
  failed : Exception → Probed

-- A probe of a client that is only asked for an answer: postgres, redis, chromadb, elasticsearch.
unfoldable pub probe_client : (elapsed : ℕ) → Option Exception → Probed
probe_client elapsed none = finished "healthy" elapsed none
probe_client elapsed (some e) = failed e

unfoldable pub probe_ollama : (elapsed : ℕ) → (status_code : Outcome ℕ) → Probed
probe_ollama elapsed (raised e) = failed e
probe_ollama elapsed (returned status_code) =
    if status_code == 200
    then finished "healthy" elapsed none
    else finished "unhealthy" elapsed
        (some (codes "ollama returned HTTP " ++ int_text (pos status_code)))

-- `_safe_probe`, with the milliseconds that went by since it started.
unfoldable pub safe_probe : (elapsed_ms : ℕ) → Probed → Dependency
safe_probe elapsed_ms (finished s latency_ms e) = record {
  status = s;
  latency_ms = latency_ms;
  error = e;
}
safe_probe elapsed_ms timed_out = record {
  status = "unhealthy";
  latency_ms = elapsed_ms;
  error = some (codes "probe exceeded 5.0s timeout");
}
safe_probe elapsed_ms (failed e) = record {
  status = "unhealthy";
  latency_ms = elapsed_ms;
  error = some (describe e);
}

pub record Workers : Type 0 where
  pub active : ℕ
  pub queue_depth : ℕ

-- What the workers answer to `inspect`: the ids of the tasks of each, or None.
abbrev pub Inspected : Type 0
Inspected = Option (List (String × List Text))

abbrev or_empty : Inspected → List (String × List Text)
or_empty none = []
or_empty (some workers) = workers

abbrev task_count : List (String × List Text) → ℕ
task_count [] = 0
task_count ((name, tasks) ∷ workers) = length tasks + task_count workers

unfoldable pub probe_celery : (active reserved : Inspected) → Workers
probe_celery active reserved = record {
  active = length (or_empty active);
  queue_depth = task_count (or_empty active) + task_count (or_empty reserved);
}

-- `_safe_celery_probe`
unfoldable pub safe_celery_probe : Outcome (Inspected × Inspected) → Workers
unfolding probe_celery
safe_celery_probe (returned (active, reserved)) = probe_celery active reserved
safe_celery_probe (raised e) = record { active = 0; queue_depth = 0 }

abbrev pub is_healthy : Dependency → Bool
is_healthy d = str_eq d.status "healthy"

-- `CRITICAL_DEPENDENCIES`
abbrev pub critical_dependencies : List String
critical_dependencies = "postgres" ∷ "redis" ∷ []

abbrev is_in : String → List String → Bool
is_in name [] = false
is_in name (s ∷ names) = str_eq s name || is_in name names

abbrev pub is_unhealthy : Option Dependency → Bool
is_unhealthy none = false
is_unhealthy (some d) = not (is_healthy d)

-- The two tests of `_aggregate_status`.
unfoldable pub any_critical : List String → List (String × Dependency) → Bool
unfolding get
any_critical [] dependencies = false
any_critical (name ∷ names) dependencies =
    is_unhealthy (get name dependencies) || any_critical names dependencies

unfoldable pub any_optional : List (String × Dependency) → Bool
any_optional [] = false
any_optional ((name, entry) ∷ dependencies) =
    (not (is_in name critical_dependencies) && not (is_healthy entry)) || any_optional dependencies

-- `_aggregate_status`
unfoldable pub aggregate_status : List (String × Dependency) → String
unfolding any_critical any_optional
aggregate_status dependencies =
    if any_critical critical_dependencies dependencies
    then "unhealthy"
    else if any_optional dependencies
    then "degraded"
    else "healthy"

-- What the five probes met, and the milliseconds until each was answered.
pub record Probes : Type 0 where
  pub postgres : ℕ × Probed
  pub redis : ℕ × Probed
  pub ollama : ℕ × Probed
  pub chromadb : ℕ × Probed
  pub elasticsearch : ℕ × Probed

abbrev entry_of : ℕ × Probed → Dependency
unfolding safe_probe
entry_of (elapsed_ms, p) = safe_probe elapsed_ms p

unfoldable pub dependencies_of : Probes → List (String × Dependency)
unfolding safe_probe
dependencies_of p =
    ("postgres", entry_of p.postgres)
    ∷ ("redis", entry_of p.redis)
    ∷ ("ollama", entry_of p.ollama)
    ∷ ("chromadb", entry_of p.chromadb)
    ∷ ("elasticsearch", entry_of p.elasticsearch)
    ∷ []

-- The answer of the route, with the value that the gauge of the queue is set to.
pub record Health : Type 0 where
  pub status_code : ℕ
  pub status : String
  pub dependencies : List (String × Dependency)
  pub workers : Workers
  pub gauge : ℕ

-- The queue depth is a sum of lengths, so the clamp of `update_queue_depth_gauge` leaves it.
unfoldable pub health_check : Probes → Outcome (Inspected × Inspected) → Health
unfolding aggregate_status dependencies_of safe_celery_probe
health_check p celery =
    let dependencies = dependencies_of p in
    let overall = aggregate_status dependencies in
    let workers = safe_celery_probe celery in
    record {
      status_code = if str_eq overall "healthy" || str_eq overall "degraded" then 200 else 503;
      status = overall;
      dependencies = dependencies;
      workers = workers;
      gauge = workers.queue_depth;
    }
