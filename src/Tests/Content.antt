-- ===== src/Tests/Content.antt =====
-- Tests and examples of the services that handle content, and of the search.
use creel.Base.{
  pos, true, false, List, [], ◌∷◌, some, none, ◌≡◌, refl, ◌⊎◌, Memᴰ, contains, update, string_dec,
}
use creel.Exec.{ok}
use creel.Store.Rows.{Chunk, ChunkStatus, num}
use creel.Store.World.{World, statement}
use creel.Store.Cascade.{delete_chunks, without_chunks}
use creel.Store.Chunks
use creel.Store.Chunks.{to_compact, set_embedding, mark, unmark}
use creel.Store.Documents
use creel.Store.Links
use creel.Store.Compactions
use creel.Store.Vectors
use creel.Store.Jobs
use creel.Store.Grants.{grants_for_principal, topic_owner, topic_ids_by_owner}
use creel.Store.Vectors.Similar.{Similarity, search_embeddings, closest_first}
use creel.Auth.Authorizer.{check, accessible_topics, permission_level, all_identities, add_granted}
use creel.Server.Compaction.{
  CompactRequest, compact, uncompact, embed_summary, transfer_all, found_chunks,
}
use creel.Server.Compaction.Reversal.{restored, uncompact-compact}
use creel.Server.Api.{Permitted, call, call-Permitted, deletes_chunk}
use creel.Retrieval.Search.{
  SearchHit, search, resolve_topics, intersect, document_ids, assemble, fetch_hits,
}
use creel.Retrieval.Search.Readable.{Readable, HasKeys, search-Readable}
use creel.Tests.Access.{tables-IsConsistent}
use creel.Tests.Data.{alice, bob, chunk, document, fresh_id, tables, world}

call-Permitted_example :
    ((call (some bob) (deletes_chunk "c1") world).db ≡ tables)
    ⊎ Permitted (some bob) (deletes_chunk "c1") tables
call-Permitted_example = call-Permitted (some bob) (deletes_chunk "c1") world

abbrev request : CompactRequest
request = record {
  document_id = "d1";
  chunk_ids = "c1" ∷ "c3" ∷ [];
  summary_content = 2 ∷ [];
  summary_embedding = [];
  summary_metadata = [];
}

abbrev after_compact : World
after_compact = (compact (some alice) request world).1

-- The chunk `c3` belongs to another document, in a topic of another owner.
compacts_c3 :
    Chunks.find_chunk "c3" after_compact.db.chunks ≡ some (mark (fresh_id 3) (chunk "c3" "d2"))
unfolding compact embed_summary transfer_all Documents.topic_id_for_document
    Chunks.document_topic_id Chunks.next_sequence Chunks.create Chunks.get Chunks.mark_compacted
    Links.transfer_links Links.transfer_sources Links.transfer_targets Vectors.delete_batch
    Compactions.create Jobs.create Jobs.insert_document_job check topic_owner statement mark
    string_dec
compacts_c3 = refl

abbrev summary : Chunk
summary = record {
  id = fresh_id 3;
  document_id = "d1";
  sequence = pos 2;
  content = 2 ∷ [];
  embedding_id = none;
  status = ChunkStatus.active;
  compacted_by = none;
  metadata = ("compaction_source_count", num 2) ∷ [];
  created_at = 3;
}

compacted : (compact (some alice) request world).0 ≡ ok (summary, 2)
unfolding compact embed_summary transfer_all Documents.topic_id_for_document
    Chunks.document_topic_id Chunks.next_sequence Chunks.create Chunks.get Chunks.mark_compacted
    Links.transfer_links Links.transfer_sources Links.transfer_targets Vectors.delete_batch
    Compactions.create Jobs.create Jobs.insert_document_job check topic_owner statement mark
    string_dec
compacted = refl

unused : contains request.chunk_ids summary.id ≡ false
unfolding string_dec
unused = refl

abbrev restored_chunks : List Chunk
restored_chunks = restored (chunk "c1" "d1") ∷ restored (chunk "c3" "d2") ∷ []

uncompacted : (uncompact (some alice) summary.id after_compact).0 ≡ ok restored_chunks
unfolding compact embed_summary transfer_all Documents.topic_id_for_document
    Chunks.document_topic_id Chunks.next_sequence Chunks.create Chunks.get Chunks.mark_compacted
    Links.transfer_links Links.transfer_sources Links.transfer_targets Vectors.delete_batch
    Compactions.create Jobs.create Jobs.insert_document_job check topic_owner statement mark
    string_dec uncompact Compactions.get_by_summary_chunk_id Chunks.restore_compacted unmark
    Vectors.delete Compactions.delete Chunks.delete delete_chunks without_chunks Chunks.get_multiple
    found_chunks
uncompacted = refl

uncompact-compact_example :
    (uncompact (some alice) summary.id after_compact).1.db.chunks
    ≡ update (to_compact request.chunk_ids) restored tables.chunks
unfolding string_dec
uncompact-compact_example =
    uncompact-compact (some alice) (some alice) request world (summary, 2) restored_chunks compacted
      refl unused uncompacted

pub tables-HasKeys : HasKeys tables
unfolding string_dec
tables-HasKeys = record {
  chunks_key = (refl, (refl, (refl, tt)));
  documents_key = (refl, (refl, tt));
}

-- A backend that ranks everything alike and takes every filter as met.
abbrev indifferent : Similarity
indifferent = record { at_most_as_far = λ q a b. true; score = λ q a. 0; includes = λ m n. true }

abbrev hit : SearchHit
hit = record {
  chunk = chunk "c2" "d1";
  topic_id = "t1";
  score = 0;
  document = some (document "d1" "t1");
}

abbrev first_hit : SearchHit
first_hit = record hit { chunk = chunk "c1" "d1" }

bob_searches :
    (search indifferent bob [] (1 ∷ []) (pos 2) [] [] world).0 ≡ ok (first_hit ∷ hit ∷ [])
unfolding search resolve_topics intersect fetch_hits document_ids assemble accessible_topics
    topic_ids_by_owner grants_for_principal statement all_identities add_granted permission_level
    string_dec Chunks.chunk_ids_by_topics search_embeddings closest_first Chunks.get_multiple
    Chunks.document_topic_ids Documents.get_multiple
bob_searches = refl

search-Readable_example : Readable tables bob [] [] hit
search-Readable_example =
    search-Readable indifferent bob [] (1 ∷ []) (pos 2) [] [] world (first_hit ∷ hit ∷ []) hit
      tables-IsConsistent tables-HasKeys bob_searches (Memᴰ.tail (Memᴰ.head refl))
