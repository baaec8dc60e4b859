-- ===== src/Lib.antt =====
-- Zubot smart ingestion: PDF documents are submitted in batches, a queue hands each job to a task, the
-- task runs the extraction pipeline and stores what it found, and a reviewer decides on documents of
-- low confidence. Paths below are relative to src/zubot_ingestion/.
--
-- Domain: the enumerations and entities of domain/enums.py, domain/entities.py and shared/types.py.
-- Repository: infrastructure/database/. `Rows` maps rows to entities, `Queries` has the reads and the
--   updates on a database of two tables, `Session` the transaction of `create_batch`, `Batches` the
--   update of a batch, and `Actions` the table of audit records beside the two. What PostgreSQL
--   decides (the order of rows, the rounding of NUMERIC) is the record `Engine`.
-- JobService: services/job_service.py. `Submission` is `submit_batch` as state passing over a `World`
--   of database, disk, queue and the ids drawn; `Status` has the counters and the status of a batch, and
--   `Reading` the two reads that the routes serve.
-- Pipeline: domain/pipeline/, the confidence calculator, the companion generator and its validation,
--   the sidecar builder with its schema, the vote of the drawing number extractor, the extractors of
--   the title and of the document type (`DocumentKind`) and, as `Responses`, json_parser.py.
-- Orchestrator: services/orchestrator.py. `Trace` is what a run accumulates, `Extraction` is Stage 1,
--   `Stages` and `Delivery` are the other stages, and `Run` composes them to `run_pipeline`. The
--   collaborators that the constructor is given are the record `Collaborators`.
-- Task: services/celery_app.py, `extract_document_task` with its retries and its cleanup.
-- Review: api/routes/review.py, the queue and the two decisions.
-- Callback: infrastructure/callback/client.py, and Ollama: infrastructure/ollama/client.py, with its
--   prompt. Both loops are over the attempts left; `Retry` says what such a loop promises.
-- Access: api/middleware/auth.py and rate_limit.py, who may call the service.
-- Routes: api/routes/jobs.py, batches.py, extract.py (`Extract`) and health.py (`Health`). Outside:
--   infrastructure/chromadb/writer.py, the names in shared/constants.py of what is written where, and
--   infrastructure/elasticsearch/indexer.py (`Search`).
-- System: the steps that submissions, tasks and reviewers take on the database, as a relation.
-- Prelude, Float, Text, Dict: the shared helpers. A Python float is the interface `FloatOps` with the
--   laws of IEEE 754 in `FloatLaws`; `Float.Fixed` fills both with decimals of two places and a NaN.
--   Python's str is a list of code points where the program walks it.
-- Examples: the properties at concrete inputs.
--
-- The task is the client of the orchestrator and of the repository, the job service and the review
-- routes are clients of the repository, and the orchestrator is a client of the pipeline's services.
-- An exception is a value (`Outcome`), and code that changes state gives the state beside it. The
-- loops that are not over a list are retries: they run on the number of attempts left, which the
-- source sets, so no fuel is chosen.
--
-- Left out: spans, histograms and log lines; the prompts of the models; the PDF library, the filename
-- patterns and the clients of ChromaDB and Elasticsearch, which are parameters; the HTTP and JSON
-- libraries, of which a client is given the answers; the logging hooks of Celery; the migrations and
-- scripts. Operations are not interleaved: each runs on the state that it finds.
pub mod Prelude
pub mod Float
pub mod Text
pub mod Dict
pub mod Domain
pub mod Repository
pub mod JobService
pub mod Pipeline
pub mod Orchestrator
pub mod Task
pub mod Review
pub mod Retry
pub mod Callback
pub mod Ollama
pub mod Access
pub mod System
pub mod Routes
pub mod Outside
pub mod Examples
