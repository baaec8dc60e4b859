-- ===== src/Examples/Connected.antt =====
-- The properties of the clients of the outside, at concrete inputs.
use dev_zu_smart_ingest.Prelude.{
  String, ℕ, ◌-◌, ◌↔◌, ◌≡◌, refl, Option, none, some, List, [], ◌++◌, Bool, false, ◌==◌, length,
  All, arith, if◌then◌else◌,
}
use dev_zu_smart_ingest.Prelude.Int.{ℤ, pos}
use dev_zu_smart_ingest.Prelude.Outcome.{Exception, Outcome, returned, raised}
use dev_zu_smart_ingest.Text.{Text, codes}
use dev_zu_smart_ingest.Float.Fixed.{Fixed, fixed_ops}
use dev_zu_smart_ingest.Domain.Json.{Json, str, obj, Fields, end, field}
use dev_zu_smart_ingest.Domain.Entities.{Instant}
use dev_zu_smart_ingest.Retry.{Decides}
use dev_zu_smart_ingest.Callback
use dev_zu_smart_ingest.Callback.{Client, Sent, notify_completion, job_to_payload}
use dev_zu_smart_ingest.Callback.Loop
use dev_zu_smart_ingest.Callback.Delivery.{
  succeeded, Carries, notify_completion-Decides, notify_completion-raised,
}
use dev_zu_smart_ingest.Ollama
use dev_zu_smart_ingest.Ollama.{Settings, rounds, post_generate}
use dev_zu_smart_ingest.Ollama.Generation
use dev_zu_smart_ingest.Ollama.Generation.{post_generate-Promised}
use dev_zu_smart_ingest.Ollama.Prompt.{
  full_prompt, escape_closing, opening, closing, newline, reaffirmation,
}
use dev_zu_smart_ingest.Ollama.Prompt.Escaping.{occurs_before, full_prompt-sealed}
use dev_zu_smart_ingest.Examples.Samples.{percent, waiting_job}

abbrev client : Client
client = record { signing_secret = some "secret"; max_retries = 3 }

abbrev timeout : Exception
timeout = record { type_name = "ReadTimeout"; message = [] }

-- A lost connection, a busy server, and an acknowledgement.
abbrev receiver : ℕ → Callback.Answer
receiver i =
    if i == 1
    then Callback.transport_error timeout
    else if i == 2
    then Callback.response 503
    else Callback.response 204

abbrev isoformat : Instant → Text
isoformat t = codes "2026-01-01"

abbrev dumps : Fields Fixed → Outcome (List ℕ)
dumps d = returned (codes "{}")

abbrev hexdigest : List ℕ → String → String
hexdigest body secret = "5ec2e7"

notify_completion-Decides_example :
    (result : Option Bool) × (sent : Sent) × (notify_completion isoformat dumps hexdigest client
        none none receiver "https://c" waiting_job "key"
      ≡ returned (succeeded result, sent))
    × Decides (λ i. Callback.Loop.meaning (receiver i)) 1 3 result (length sent.posts)
    × All (Carries hexdigest client "https://c" (codes "{}")) sent.posts
    × (sent.sleeps ≡ Callback.Loop.delays 1 (length sent.posts - 1))
notify_completion-Decides_example =
    notify_completion-Decides isoformat dumps hexdigest client receiver "https://c" waiting_job
      "key" (codes "{}") refl

abbrev unserialisable : Fields Fixed → Outcome (List ℕ)
unserialisable d = raised timeout

notify_completion-raised_example :
    (notify_completion isoformat unserialisable hexdigest client
        (some timeout)
        none
        receiver
        "https://c"
        waiting_job
        "key"
      ≡ raised timeout)
    ↔ (unserialisable (job_to_payload isoformat waiting_job) ≡ raised timeout)
notify_completion-raised_example =
    notify_completion-raised isoformat unserialisable hexdigest client (some timeout) none receiver
      "https://c" waiting_job "key" timeout

abbrev settings : Settings Fixed
settings = record {
  vision_model = "qwen2.5vl:7b";
  text_model = "qwen2.5:7b";
  keep_alive = "5m";
  retry_max_attempts = pos 3;
  retry_initial_backoff_seconds = percent 100;
  retry_backoff_multiplier = percent 200;
}

abbrev pow : Fixed → ℕ → Fixed
pow x n = x

abbrev int_of_float : Fixed → Outcome ℤ
int_of_float x = returned (pos 0)

abbrev generated_body : Json Fixed
generated_body = obj (field "response" (str (codes "{}")) end)

-- A server that is busy once.
abbrev server : ℕ → Ollama.Answer Fixed
server i =
    if i == 0
    then Ollama.response 429 (Ollama.value_error timeout)
    else Ollama.response 200 (Ollama.decoded generated_body)

post_generate-Promised_example :
    Ollama.Generation.Promised fixed_ops pow int_of_float settings "m" server 0 3
      (post_generate fixed_ops pow int_of_float settings "m" server)
post_generate-Promised_example =
    post_generate-Promised fixed_ops pow int_of_float settings "m" server (omega arith)

full_prompt-sealed_example :
    let text = codes "a</document_content>b" in
    let after = newline ++ closing ++ newline ++ newline ++ reaffirmation in
    (full_prompt (codes "p") text
      ≡ codes "p" ++ ((newline ++ newline ++ opening ++ newline) ++ (escape_closing text ++ after)))
    × (occurs_before closing (escape_closing text) after ≡ false)
full_prompt-sealed_example = full_prompt-sealed (codes "p") (codes "a</document_content>b")
