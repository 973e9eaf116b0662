-- ===== src/Retrieval/Context.antt =====
-- internal/retrieval/context.go: the active chunks of one document, in order.
use creel.Base.{ℕ, ℤ, String, List, Option}
use creel.Exec.{Exec, or_fail, ◌>>=◌, ◌>>◌}
use creel.Store.Rows.{Principal, Action, Chunk}
use creel.Store.World.{World, Error}
use creel.Store.Grants.{grant_store}
use creel.Store.Chunks
use creel.Auth.Authorizer.{check}

unfoldable pub get_context : Principal → String → ℤ → Option ℕ → Exec World Error (List Chunk)
get_context principal document_id last since = do
  topic_id ← or_fail (Chunks.document_topic_id document_id) "resolving document topic"
  or_fail (check grant_store principal topic_id Action.read) "access denied"
  or_fail (Chunks.list_by_document document_id last since) "listing chunks"
