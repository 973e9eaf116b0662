-- ===== src/Server/Compaction/Effects.antt =====
-- What the statements of internal/server/compaction.go do to the table of chunks when they succeed.
use creel.Base.{
  ℕ, ℤ, String, Bool, List, [], ◌∷◌, ◌++◌, Option, none, some, ◌≡◌, refl, sym, ◌∙◌, arith, not,
  ◌==◌, map, select, update, ap,
}
use creel.Exec.{ignore}
use creel.Store.Rows.{Principal, Action, Chunk, Metadata, Vector}
use creel.Store.World.{statement}
use creel.Store.Chunks
use creel.Store.Chunks.{find_chunk, set_embedding, mark, unmark, to_compact, compacted_into}
use creel.Store.Cascade.{delete_chunks, without_chunks}
use creel.Store.Documents
use creel.Store.Links
use creel.Store.Links.{transfer_sources, transfer_targets}
use creel.Store.Compactions
use creel.Store.Vectors
use creel.Store.Jobs
use creel.Store.Jobs.{insert_document_job}
use creel.Store.Grants.{grant_store}
use creel.Auth.Authorizer.{check}
use creel.Auth.Authorizer.Decision.{db-check}
use creel.Server.Status.{authenticate}
use creel.Server.Compaction.{embed_summary, transfer_all}
use creel.Server.Compaction.Moves.{
  Moves, Same, after_moving, or_fail-Moves, reads-Moves, pure-Moves, unmoved_chain,
}

pub authenticate-Moves : (p : Option Principal) → Moves Same (authenticate p)
authenticate-Moves none = record { at = λ w a h. refl }
authenticate-Moves (some q) = record { at = λ w a h. refl }

pub check-Moves : (q : Principal) (t : String) (a : Action) → Moves Same (check grant_store q t a)
check-Moves q t a = reads-Moves (check grant_store q t a) (db-check q t a)

pub topic-Moves : (id : String) → Moves Same (Documents.topic_id_for_document id)
unfolding Documents.topic_id_for_document Chunks.document_topic_id statement
topic-Moves id = record { at = λ w a h. ground arith }

pub next_sequence-Moves : (id : String) → Moves Same (Chunks.next_sequence id)
unfolding Chunks.next_sequence statement
next_sequence-Moves id = record { at = λ w a h. ground arith }

-- A new chunk stands last, active and compacted into no other.
abbrev pub Appended : List Chunk → Chunk → List Chunk → Type 0
Appended cs c ds = (ds ≡ cs ++ c ∷ []) × (c.compacted_by ≡ none)

pub create-Moves :
    (id : String) (content : List ℕ) (n : ℤ) (meta : Metadata)
    → Moves Appended (Chunks.create id content n meta)
unfolding Chunks.create statement
create-Moves id content n meta = record { at = λ w a h. (ground arith, ground arith) }

pub set_embedding_id-Moves :
    (id : String)
    → Moves
        (λ cs a ds. ds ≡ update (λ c. c.id == id) (set_embedding id) cs)
        (Chunks.set_embedding_id id id)
unfolding Chunks.set_embedding_id statement
set_embedding_id-Moves id = record { at = λ w a h. ground arith }

pub store-Moves :
    (id : String) (v : Vector) (meta : Metadata) → Moves Same (Vectors.store id v meta)
unfolding Vectors.store statement
store-Moves id v meta = record { at = λ w a h. ground arith }

pub delete_vector-Moves : (id : String) → Moves Same (Vectors.delete id)
unfolding Vectors.delete statement
delete_vector-Moves id = record { at = λ w a h. ground arith }

pub delete_batch-Moves : (ids : List String) → Moves Same (Vectors.delete_batch ids)
unfolding Vectors.delete_batch statement
delete_batch-Moves ids = record { at = λ w a h. ground arith }

pub transfer_links-Moves : (old new : String) → Moves Same (Links.transfer_links old new)
unfolding Links.transfer_links transfer_sources transfer_targets statement
transfer_links-Moves old new = record { at = λ w a h. ground arith }

pub transfer_all-Moves : (ids : List String) (id : String) → Moves Same (transfer_all ids id)
unfolding transfer_all
transfer_all-Moves [] id = pure-Moves tt
transfer_all-Moves (i ∷ ids) id =
    unmoved_chain _ _ (or_fail-Moves _ _ (transfer_links-Moves i id))
      (λ n. transfer_all-Moves ids id)

pub mark_compacted-Moves :
    (ids : List String) (id : String)
    → Moves (λ cs a ds. ds ≡ update (to_compact ids) (mark id) cs) (Chunks.mark_compacted ids id)
unfolding Chunks.mark_compacted statement
mark_compacted-Moves ids id = record { at = λ w a h. ground arith }

pub record-Moves :
    (id : String) (ids : List String) (d by : String) → Moves Same (Compactions.create id ids d by)
unfolding Compactions.create statement
record-Moves id ids d by = record { at = λ w a h. ground arith }

pub get-Moves :
    (id : String) → Moves (λ cs c ds. (ds ≡ cs) × (find_chunk id cs ≡ some c)) (Chunks.get id)
unfolding Chunks.get statement
get-Moves id = record { at = λ w a h. (ground arith, ground arith) }

-- The job is queued at best: whatever comes of it, the chunks stay.
pub enqueue-Moves :
    {E : Type 0} (id job_type : String) → Moves {E = E} Same (ignore (Jobs.create id job_type))
unfolding Jobs.create insert_document_job statement
enqueue-Moves id job_type = record { at = λ w a h. ground arith }

update-id : (p : Chunk → Bool) (cs : List Chunk) → update p (λ c. c) cs ≡ cs
update-id p [] = refl
update-id p (c ∷ cs) = ground (arith, update-id p cs)

abbrev pub embedded : Vector → String → Chunk → Chunk
embedded [] id = λ c. c
embedded (x ∷ xs) id = set_embedding id

pub embed_summary-Moves :
    (d : String) (v : Vector) (meta : Metadata) (id : String)
    → Moves
        (λ cs a ds. ds ≡ update (λ c. c.id == id) (embedded v id) cs)
        (embed_summary d v meta id)
unfolding embed_summary
embed_summary-Moves d [] meta id = record {
  at = λ w a h.
      (enqueue-Moves d "embedding").at w a h ∙ sym (update-id (λ c. c.id == id) w.db.chunks);
}
embed_summary-Moves d (x ∷ xs) meta id = record {
  at = λ w a h.
      let (b, v, q, y, e) =
        after_moving _ _ w a (or_fail-Moves _ _ (store-Moves id (x ∷ xs) meta)) h in
      ap (λ r. r.1.db.chunks) e
      ∙ (or_fail-Moves _ _ (set_embedding_id-Moves id)).at v a y
      ∙ ap (update (λ c. c.id == id) (set_embedding id)) q;
}

pub summary_record-Moves : (id : String) → Moves Same (Compactions.get_by_summary_chunk_id id)
unfolding Compactions.get_by_summary_chunk_id statement
summary_record-Moves id = record { at = λ w a h. ground arith }

pub delete_record-Moves : (id : String) → Moves Same (Compactions.delete id)
unfolding Compactions.delete statement
delete_record-Moves id = record { at = λ w a h. ground arith }

pub restore_compacted-Moves :
    (id : String)
    → Moves
        (λ cs ids ds.
          (ds ≡ update (compacted_into id) unmark cs)
          × (ids ≡ map (λ c. c.id) (select (compacted_into id) cs)))
        (Chunks.restore_compacted id)
unfolding Chunks.restore_compacted statement
restore_compacted-Moves id = record { at = λ w a h. (ground arith, ground arith) }

pub delete-Moves :
    (id : String) → Moves (λ cs a ds. ds ≡ select (λ c. not (c.id == id)) cs) (Chunks.delete id)
unfolding Chunks.delete statement delete_chunks without_chunks
delete-Moves id = record { at = λ w a h. ground arith }

pub get_multiple-Moves : (ids : List String) → Moves Same (Chunks.get_multiple ids)
unfolding Chunks.get_multiple statement
get_multiple-Moves [] = record { at = λ w a h. refl }
get_multiple-Moves (i ∷ ids) = record { at = λ w a h. ground arith }
