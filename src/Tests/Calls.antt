-- ===== src/Tests/Calls.antt =====
-- Tests and examples of the calls of the services and of the memory worker.
use creel.Base.{Memᴰ, [], ◌∷◌, some, ◌≡◌, refl, string_dec}
use creel.Exec.{ok}
use creel.Store.Rows.{ProcessingJob, str}
use creel.Store.World.{statement}
use creel.Store.Grants.{grants_for_principal, topic_owner}
use creel.Store.Chunks
use creel.Store.Chunks.Models.{get_embedding_models}
use creel.Store.Memories
use creel.Auth.Authorizer.{check, permission_level, all_identities, some_grant}
use creel.Server.Chunk.{get_chunk, model_of}
use creel.Server.Queries.{MayRead, answers, of_chunk, chunk_row}
use creel.Server.Queries.Readable.{answers-MayRead}
use creel.Worker.Memory.{Model, process, decide, handle_add}
use creel.Worker.Memory.Effects.{Maintained, process-Maintained}
use creel.Tests.Data.{bob, chunk, job, tables, world}

-- Alice's chunk, which Bob may read through his group.
bob_gets : answers (some bob) (of_chunk "c1") world ≡ chunk_row (chunk "c1" "d1") ∷ []
unfolding answers get_chunk model_of get_embedding_models Chunks.get Chunks.document_topic_id check
    topic_owner grants_for_principal statement all_identities some_grant permission_level string_dec
bob_gets = refl

answers-MayRead_example : MayRead (some bob) (chunk_row (chunk "c1" "d1")) tables
unfolding answers get_chunk model_of get_embedding_models Chunks.get Chunks.document_topic_id check
    topic_owner grants_for_principal statement all_identities some_grant permission_level string_dec
answers-MayRead_example =
    answers-MayRead (some bob) (of_chunk "c1") world (chunk_row (chunk "c1" "d1")) (Memᴰ.head refl)

abbrev adding : Model
adding = record {
  complete = λ fact ms. ok "ADD";
  parse = λ text. some (record { action = text; memory_id = ""; merged_content = "" });
}

abbrev fact_job : ProcessingJob
fact_job = record (job "j3" 0) {
  progress = ("candidate_fact", str "likes tea") ∷ ("principal", str "bob") ∷ [];
}

fact_added : (process adding fact_job world).0 ≡ ok tt
unfolding process decide handle_add Memories.get_by_scope Memories.create statement string_dec
fact_added = refl

process-Maintained_example :
    Maintained "likes tea" "bob" "default" [] (process adding fact_job world).1.db.memories
unfolding string_dec
process-Maintained_example = process-Maintained adding fact_job world
