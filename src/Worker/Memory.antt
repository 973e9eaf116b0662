-- ===== src/Worker/Memory.antt =====
-- internal/worker/memory_maintenance.go: an LLM decides what becomes of a candidate fact. The LLM and
-- the reading of its JSON answer are parameters; prompts and messages are their arguments.
pub mod Effects
use creel.Base.{
  String, Bool, true, false, List, [], ◌∷◌, Option, none, some, ◌||◌, not, ◌==◌, if◌then◌else◌,
}
use creel.Exec.{Exec, Result, ok, err, pure, fail, guard, or_fail, ◌>>=◌, ◌>>◌}
use creel.Store.Rows.{ProcessingJob, Memory, Metadata}
use creel.Store.World.{World, Error}
use creel.Store.Memories
use creel.Store.Memories.{NewMemory}
use creel.Server.Job.{string_at}
use creel.Server.Memory.{scope_or_default}

-- maintenanceResponse.
pub record MaintenanceResponse : Type 0 where
  pub action : String
  pub memory_id : String
  pub merged_content : String

-- `Complete` on the prompt for a fact and the memories, and `json.Unmarshal` of `extractJSON` of the
-- answer. Neither has the tables.
pub record Model : Type 0 where
  pub complete : String → List Memory → Result Error String
  pub parse : String → Option MaintenanceResponse

abbrev pub new_fact : String → String → String → NewMemory
new_fact content principal scope = record {
  principal = principal;
  scope = scope;
  content = content;
  subject = none;
  predicate = none;
  object = none;
  source_chunk_id = none;
  metadata = [];
}

unfoldable pub handle_add : String → String → String → Exec World Error (Unit {0})
handle_add content principal scope = do
  or_fail (Memories.create (new_fact content principal scope)) "creating memory"
  pure tt

unfoldable pub handle_update : String → String → Exec World Error (Unit {0})
handle_update memory_id merged_content = do
  guard (not (memory_id == "" || merged_content == ""))
      "UPDATE action requires memory_id and merged_content"
  existing ← or_fail (Memories.get memory_id) "getting memory for update"
  or_fail (Memories.update_memory memory_id merged_content existing.metadata) "updating memory"
  pure tt

unfoldable pub handle_delete : String → Exec World Error (Unit {0})
handle_delete memory_id = do
  guard (not (memory_id == "")) "DELETE action requires memory_id"
  or_fail (Memories.invalidate memory_id) "invalidating memory"

-- The switch over the decision.
unfoldable pub decide : String → String → String → MaintenanceResponse → Exec World Error (Unit {0})
decide fact principal scope d =
    if d.action == "ADD"
    then handle_add fact principal scope
    else if d.action == "UPDATE"
    then handle_update d.memory_id d.merged_content
    else if d.action == "DELETE"
    then handle_delete d.memory_id
    else if d.action == "NOOP"
    then pure tt
    else fail "unknown maintenance action"

abbrev pub answer : Model → Result Error String → Exec World Error MaintenanceResponse
answer model (err e) = fail "calling LLM for maintenance"
answer model (ok text) = elim (model.parse text) [
  | none ↦ fail "parsing maintenance response"
  | some d ↦ pure d
]

unfoldable pub process : Model → ProcessingJob → Exec World Error (Unit {0})
process model job =
    let fact = string_at "candidate_fact" job.progress in
    let principal = string_at "principal" job.progress in
    let scope = scope_or_default (string_at "scope" job.progress) in
    do
      guard (not (fact == "" || principal == ""))
          "missing candidate_fact or principal in job progress"
      existing ← or_fail (Memories.get_by_scope principal scope) "fetching existing memories"
      d ← answer model (model.complete fact existing)
      decide fact principal scope d
