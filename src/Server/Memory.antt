-- ===== src/Server/Memory.antt =====
-- internal/server/memory.go: the MemoryService, with its job store set.
pub mod Guarded
use creel.Base.{
  is_empty, String, Bool, List, [], ◌∷◌, ◌++◌, Option, none, some, not, ◌==◌, if◌then◌else◌,
}
use creel.Exec.{Exec, Result, ok, err, pure, guard, ◌>>=◌, ◌>>◌}
use creel.Store.Rows.{
  Principal, Memory, Json, JsonItems, Metadata, str, arr, obj, nil, cons, no_fields, field, put,
}
use creel.Store.World.{World}
use creel.Store.Memories
use creel.Store.Jobs
use creel.Server.Status.{
  Code, Handler, authenticate, or_internal, or_not_found, invalid_argument, permission_denied,
}

unfoldable pub get_memories : Option Principal → List String → Handler (List Memory)
get_memories p scopes = do
  caller ← authenticate p
  or_internal (Memories.get_by_scopes caller.id scopes)

pub record AddMemoryRequest : Type 0 where
  pub scope : String
  pub content : String
  pub subject : String
  pub predicate : String
  pub object : String

abbrev pub scope_or_default : String → String
scope_or_default scope = if scope == "" then "default" else scope

-- `if v != "" { progress[k] = v }`.
abbrev put_text : String → String → Metadata → Metadata
put_text k v m = if v == "" then m else put k (str v) m

abbrev pub candidate : String → AddMemoryRequest → Metadata
candidate caller req = put_text "object" req.object (
    put_text "predicate" req.predicate (
      put_text "subject" req.subject (
        ("candidate_fact", str req.content)
        ∷ ("principal", str caller)
        ∷ ("scope", str (scope_or_default req.scope))
        ∷ [])))

unfoldable pub add_memory : Option Principal → AddMemoryRequest → Handler String
add_memory p req = do
  caller ← authenticate p
  guard (not (req.content == "")) invalid_argument
  job ← or_internal (Jobs.create_docless "memory_maintenance" (candidate caller.id req))
  pure job.id

-- pb.Message, which the handler turns into a JSON object of the same two fields.
pub record Message : Type 0 where
  pub role : String
  pub content : String

abbrev pub messages_data : List Message → JsonItems
messages_data [] = nil
messages_data (m ∷ ms) =
    cons (obj (field "role" (str m.role) (field "content" (str m.content) no_fields)))
      (messages_data ms)

unfoldable pub add_messages : Option Principal → String → List Message → Handler (List String)
add_messages p scope messages = do
  caller ← authenticate p
  guard (not (is_empty messages)) invalid_argument
  job ← or_internal (
      Jobs.create_docless "memory_messages" (
        ("messages", arr (messages_data messages))
        ∷ ("principal", str caller.id)
        ∷ ("scope", str (scope_or_default scope))
        ∷ []))
  pure (job.id ∷ [])

-- Fields that are not set keep what is there; `none` is a metadata that is not sent.
abbrev kept : Option Metadata → Metadata → Metadata
kept none old = old
kept (some m) old = m

unfoldable pub update_memory : Option Principal → String → String → Option Metadata → Handler Memory
update_memory p id content metadata = do
  caller ← authenticate p
  guard (not (id == "")) invalid_argument
  existing ← or_not_found (Memories.get id)
  guard (existing.principal == caller.id) permission_denied
  or_internal (
      Memories.update_memory id (if content == "" then existing.content else content)
        (kept metadata existing.metadata))

unfoldable pub delete_memory : Option Principal → String → Handler (Unit {0})
delete_memory p id = do
  caller ← authenticate p
  guard (not (id == "")) invalid_argument
  existing ← or_not_found (Memories.get id)
  guard (existing.principal == caller.id) permission_denied
  or_internal (Memories.invalidate id)

unfoldable pub list_memories : Option Principal → String → Bool → Handler (List Memory)
list_memories p scope include_invalidated = do
  caller ← authenticate p
  guard (not (scope == "")) invalid_argument
  or_internal (Memories.list_by_scope caller.id scope include_invalidated)

unfoldable pub list_scopes : (String → String → Bool) → Option Principal → Handler (List String)
list_scopes le p = do caller ← authenticate p; or_internal (Memories.list_scopes le caller.id)
