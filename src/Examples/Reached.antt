-- ===== src/Examples/Reached.antt =====
-- The properties of the service as a whole and of its guard, at concrete inputs.
use dev_zu_smart_ingest.Prelude.{
  ℕ, String, ◌≡◌, ◌⊎◌, refl, Option, none, some, [], ◌∷◌, false, ◌&&◌, if◌then◌else◌,
}
use dev_zu_smart_ingest.Prelude.Outcome.{Exception, Outcome, returned, raised}
use dev_zu_smart_ingest.Text.{Text, codes, text_eq, starts_with}
use dev_zu_smart_ingest.Float.Fixed.{Fixed, fixed_ops}
use dev_zu_smart_ingest.Domain.Json.{Json, str, end, field}
use dev_zu_smart_ingest.Domain.Entities.{Job, AuthContext}
use dev_zu_smart_ingest.Repository.Queries.{Database, get_job}
use dev_zu_smart_ingest.JobService.Submission.{submit_batch}
use dev_zu_smart_ingest.Task.{extract_document_task}
use dev_zu_smart_ingest.System.{Reach, here, next, submit, extract, reject, empty_database}
use dev_zu_smart_ingest.System.Reading.{IsReadable, Reach-IsReadable}
use dev_zu_smart_ingest.Access.{
  Request, Decoded, claims, dispatch, next_answer, unauthorized, is_exempt,
}
use dev_zu_smart_ingest.Access.Guard.{IsCredential, dispatch-guarded}
use dev_zu_smart_ingest.Review.{RejectRequest, reject_review}
use dev_zu_smart_ingest.Dict.{get}
use dev_zu_smart_ingest.Routes.{get_job_endpoint}
use dev_zu_smart_ingest.Routes.Answers.{IsAnswer, get_job_endpoint-IsAnswer}
use dev_zu_smart_ingest.Routes.Health.{
  Probes, Inspected, finished, timed_out, safe_probe, aggregate_status, dependencies_of,
  any_critical, any_optional, health_check,
}
use dev_zu_smart_ingest.Routes.Health.Verdict.{up, verdict, health_check-verdict}
use dev_zu_smart_ingest.Examples.Samples.{engine}
use dev_zu_smart_ingest.Examples.Submitted.{environment, empty_world, drawing, params, auth}
use dev_zu_smart_ingest.Examples.Processed.{attempts}

abbrev repr : Text → Text
repr s = s

-- A submission, a task, and a rejection that comes too early.
abbrev submitted : Database Fixed
submitted = (submit_batch fixed_ops environment (drawing ∷ []) params auth empty_world).1.database

abbrev extracted : Database Fixed
extracted = (extract_document_task fixed_ops engine attempts 3 101 submitted).1

abbrev rejection : RejectRequest
rejection = record { reviewer_id = codes "ann"; reason = codes "blurred" }

abbrev rejected : Database Fixed
rejected = (reject_review repr (codes "101") (some 101) rejection 30 extracted).1

history : Reach fixed_ops engine repr empty_database rejected
history =
    next
      (next (next here (submit environment (drawing ∷ []) params auth empty_world))
        (extract attempts 3 101 submitted))
      (reject (codes "101") (some 101) rejection 30 extracted)

Reach-IsReadable_example :
    (found : Option (Job Fixed)) × (get_job 101 rejected ≡ returned found) × IsReadable found
Reach-IsReadable_example = Reach-IsReadable fixed_ops engine repr {db = rejected} history 101

get_job_endpoint-IsAnswer_example :
    IsAnswer fixed_ops engine repr
      (λ t. codes "2026")
      (codes "101")
      (some 101)
      rejected
      (get_job_endpoint (λ t. codes "2026") repr (codes "101") (some 101) rejected)
get_job_endpoint-IsAnswer_example =
    get_job_endpoint-IsAnswer fixed_ops engine repr (λ t. codes "2026") (codes "101") (some 101)
      rejected history

-- Ollama hangs, and the queue does not answer.
abbrev probes : Probes
probes = record {
  postgres = (2, finished "healthy" 2 none);
  redis = (1, finished "healthy" 1 none);
  ollama = (5000, timed_out);
  chromadb = (3, finished "healthy" 3 none);
  elasticsearch = (4, finished "healthy" 4 none);
}

abbrev no_workers : Outcome (Inspected × Inspected)
no_workers = raised (record { type_name = "TimeoutError"; message = [] })

health_check-verdict_example :
    ((health_check probes no_workers).status ≡ verdict probes)
    × ((health_check probes no_workers).status_code
        ≡ (if up probes.postgres && up probes.redis then 200 else 503))
health_check-verdict_example = health_check-verdict probes no_workers

health_check_degraded : (health_check probes no_workers).status ≡ "degraded"
unfolding health_check aggregate_status dependencies_of any_critical any_optional get safe_probe
health_check_degraded = refl

abbrev request : Request
request = record {
  path = codes "/jobs/7";
  api_key = none;
  authorization = some (codes "Bearer abc");
  remote_address = codes "10.0.0.1";
}

abbrev decode : Text → Decoded Fixed
decode token = claims (field "user_id" (str (codes "ann")) end)

abbrev py_str : Json Fixed → String
py_str v = "ann"

request_not_exempt : is_exempt request.path ≡ false
unfolding is_exempt text_eq starts_with
request_not_exempt = refl

dispatch-guarded_example :
    ((context : AuthContext) × IsCredential (codes "key") decode py_str request context
      × ((call_next : Option AuthContext → Outcome ℕ)
          → dispatch (codes "key") decode py_str request call_next
            ≡ next_answer (codes "key") decode py_str (call_next (some context))))
    ⊎ (((call_next : Option AuthContext → Outcome ℕ)
          → dispatch (codes "key") decode py_str request call_next ≡ returned unauthorized)
        ⊎ ((e : Exception) × ((call_next : Option AuthContext → Outcome ℕ)
              → dispatch (codes "key") decode py_str request call_next ≡ raised e)))
dispatch-guarded_example = dispatch-guarded (codes "key") decode py_str request request_not_exempt
