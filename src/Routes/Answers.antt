-- ===== src/Routes/Answers.antt =====
-- In every state that the service reaches, what the job route answers.
use dev_zu_smart_ingest.Prelude.{◌≡◌, ◌++◌, refl, Option, none, some}
use dev_zu_smart_ingest.Prelude.Outcome.{returned}
use dev_zu_smart_ingest.Text.{Text, codes}
use dev_zu_smart_ingest.Text.Number.{uuid_text}
use dev_zu_smart_ingest.Float.{FloatOps}
use dev_zu_smart_ingest.Domain.Enums.{job_status_value}
use dev_zu_smart_ingest.Domain.Json.{str, obj, Fields, get, nullable, native, natural}
use dev_zu_smart_ingest.Domain.Entities.{Uuid, Instant, Job}
use dev_zu_smart_ingest.Repository.Queries.{Database, Engine}
use dev_zu_smart_ingest.Repository.Queries
use dev_zu_smart_ingest.JobService.Reading.{get_job, job_detail}
use dev_zu_smart_ingest.System.{Reach, empty_database}
use dev_zu_smart_ingest.System.Reading.{IsReadable, Reach-IsReadable}
use dev_zu_smart_ingest.Routes.{Answer, content, http_error, get_job_endpoint, serialize_job}

module _ {F : Type 0} (isoformat : Instant → Text) where
  -- The JSON object that describes a job, key by key.
  abbrev pub Describes : Job F → Fields F → Type 0
  Describes job body =
      (get "job_id" body ≡ some (str (uuid_text job.job_id)))
      × (get "batch_id" body ≡ some (str (uuid_text job.batch_id)))
      × (get "filename" body ≡ some (str job.filename))
      × (get "file_hash" body ≡ some (native job.file_hash))
      × (get "status" body ≡ some (native (job_status_value job.status)))
      × (get "result" body ≡ some (nullable obj job.result))
      × (get "error_message" body ≡ some (nullable str job.error_message))
      × (get "pipeline_trace" body ≡ some (nullable obj job.pipeline_trace))
      × (get "otel_trace_id" body ≡ some (nullable native job.otel_trace_id))
      × (get "processing_time_ms" body ≡ some (nullable natural job.processing_time_ms))
      × (get "created_at" body ≡ some (str (isoformat job.created_at)))
      × (get "updated_at" body ≡ some (str (isoformat job.updated_at)))

  -- The answer for an id and what is stored under it.
  abbrev pub IsReply : Uuid → Option (Job F) → Answer F → Type 0
  IsReply id none answer =
      answer ≡ http_error 404 (codes "Job " ++ (uuid_text id ++ codes " not found"))
  IsReply id (some job) answer = (body : Fields F) × (answer ≡ content body) × Describes job body

module _ {F : Type 0} (fl : FloatOps F) (engine : Engine F) (repr : Text → Text)
    (isoformat : Instant → Text) where
  -- What the route answers to a path: 400 if it names no id, else by what is stored under the id.
  abbrev pub IsAnswer : (job_id : Text) (parsed : Option Uuid) → Database F → Answer F → Type 0
  IsAnswer job_id none db answer = answer ≡ http_error 400 (codes "Invalid job_id: " ++ repr job_id)
  IsAnswer job_id (some id) db answer =
      (found : Option (Job F)) × (Queries.get_job id db ≡ returned found)
      × IsReadable found
      × IsReply isoformat id found answer

  get_job_endpoint-IsReply :
      (job_id : Text) (id : Uuid) (db : Database F) (found : Option (Job F))
      → Queries.get_job id db ≡ returned found
      → IsReply isoformat id found (get_job_endpoint isoformat repr job_id (some id) db)
  unfolding get_job_endpoint get_job job_detail serialize_job get
  get_job_endpoint-IsReply job_id id db none h = rw (h, get_job_endpoint) refl
  get_job_endpoint-IsReply job_id id db (some job) h =
      rw (h, get_job_endpoint)
        (
          serialize_job isoformat (job_detail job),
          refl,
          (refl, refl, refl, refl, refl, refl, refl, refl, refl, refl, refl, refl),
        )

  -- In every state that the service reaches, GET of a job is answered 400 if the path names no id, 404
  -- with the id in the message if nothing is stored under it, and else with a JSON object that
  -- describes the stored job key by key, which has a result and a tier if it is COMPLETED or REVIEW.
  pub get_job_endpoint-IsAnswer :
      (job_id : Text) (parsed : Option Uuid) (db : Database F)
      → Reach fl engine repr empty_database db
      → IsAnswer job_id parsed db (get_job_endpoint isoformat repr job_id parsed db)
  unfolding get_job_endpoint
  get_job_endpoint-IsAnswer job_id none db r = refl
  get_job_endpoint-IsAnswer job_id (some id) db r =
      let (found, e, readable) = Reach-IsReadable fl engine repr r id in
      (found, e, readable, get_job_endpoint-IsReply job_id id db found e)
