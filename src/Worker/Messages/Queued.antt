-- ===== src/Worker/Messages/Queued.antt =====
-- The jobs that internal/worker/memory_messages.go leaves for the facts of a conversation.
use creel.Base.{ℕ, String, Bool, false, List, ◌∷◌, some, ◌≡◌, map, not, ◌==◌}
use creel.Exec.{ok}
use creel.Store.Rows.{Json, JobStatus, queued, Metadata, ProcessingJob, lookup}
use creel.Store.World.{World, Db}
use creel.Store.Jobs
use creel.Server.Job.{string_at}
use creel.Worker.Text.{extract_json}
use creel.Worker.Messages.{Message, Extractor, fact_progress}
use creel.Worker.Pipeline.Achieves.{Achieves}

-- What a worker sees of a job.
abbrev pub view : ProcessingJob → String × (String × (JobStatus × Metadata))
view j = (j.document_id, (j.job_type, (j.status, j.progress)))

-- The job for a fact.
abbrev pub fact_view : String → String → String → String × (String × (JobStatus × Metadata))
fact_view principal scope fact =
    ("", ("memory_maintenance", (queued, fact_progress principal scope fact)))

abbrev pub is_fact : String → Bool
is_fact fact = not (fact == "")

abbrev JobsAre : List (String × (String × (JobStatus × Metadata))) → Db → Type 0
JobsAre js db = map view db.jobs ≡ js

-- A job whose conversation leads to facts.
pub record Extracts (x : Extractor) (job : ProcessingJob) (facts : List String) : Type 0 where
  pub raw : Json
  pub first : Message
  pub others : List Message
  pub answer : List ℕ
  pub has_principal : (string_at "principal" job.progress == "") ≡ false
  pub has_messages : lookup "messages" job.progress ≡ some raw
  pub parsed : x.parse_messages raw ≡ some (first ∷ others)
  pub answered : x.complete (first ∷ others) ≡ ok answer
  pub extracted : x.parse_facts (extract_json answer) ≡ some facts
