-- ===== src/Worker/Messages.antt =====
-- internal/worker/memory_messages.go: candidate facts from a conversation. The LLM and the two uses
-- of `json.Unmarshal` are parameters.
pub mod Queued
use creel.Base.{ℕ, String, List, [], ◌∷◌, Option, not, ◌==◌, if◌then◌else◌}
use creel.Exec.{Exec, Result, pure, guard, or_fail, require, ◌>>=◌, ◌>>◌}
use creel.Store.Rows.{Json, str, ProcessingJob, Metadata, lookup}
use creel.Store.World.{World, Error}
use creel.Store.Jobs
use creel.Server.Job.{string_at}
use creel.Server.Memory.{scope_or_default}
use creel.Worker.Text.{extract_json}
use creel.Worker.Status.{result}

-- A message of the conversation.
pub record Message : Type 0 where
  pub role : String
  pub content : String

pub record Extractor : Type 0 where
  pub parse_messages : Json → Option (List Message)
  pub complete : List Message → Result Error (List ℕ)
  pub parse_facts : List ℕ → Option (List String)

-- The progress of a maintenance job.
abbrev pub fact_progress : String → String → String → Metadata
fact_progress principal scope fact =
    ("candidate_fact", str fact) ∷ ("principal", str principal) ∷ ("scope", str scope) ∷ []

-- The loop over the facts: an empty one is passed over.
unfoldable pub queue_facts : String → String → List String → Exec World Error (Unit {0})
queue_facts principal scope [] = pure tt
queue_facts principal scope (fact ∷ facts) =
    (if fact == ""
      then pure tt
      else or_fail (Jobs.create_docless "memory_maintenance" (fact_progress principal scope fact))
          "creating memory_maintenance job"
        >> pure tt)
    >> queue_facts principal scope facts

abbrev extract_facts : Extractor → String → String → List Message → Exec World Error (Unit {0})
extract_facts x principal scope [] = pure tt
extract_facts x principal scope (m ∷ messages) = do
  answer ← or_fail (result (x.complete (m ∷ messages))) "calling LLM for fact extraction"
  facts ← require (x.parse_facts (extract_json answer)) "parsing extraction response"
  queue_facts principal scope facts

-- MemoryMessagesWorker.Process.
unfoldable pub process : Extractor → ProcessingJob → Exec World Error (Unit {0})
unfolding queue_facts extract_json
process x job =
    let principal = string_at "principal" job.progress in
    let scope = scope_or_default (string_at "scope" job.progress) in
    do
      guard (not (principal == "")) "missing principal in job progress"
      raw ← require (lookup "messages" job.progress) "missing messages in job progress"
      messages ← require (x.parse_messages raw) "parsing messages"
      extract_facts x principal scope messages
