-- ===== src/Worker/Pipeline/Delivery.antt =====
-- The whole pipeline of internal/worker over a database whose statements succeed.
use creel.Base.{
  subst, sym, ℕ, String, true, false, List, [], ◌∷◌, ◌++◌, Option, none, some, ◌≡◌, refl, ap, ◌∙◌,
  inl, inr, map, Memᴰ, is_empty, either-Memᴰ,
}
use creel.Exec.{Result, ok}
use creel.Store.Rows.{Topic, Chunk, ProcessingJob, ready}
use creel.Store.World.{World, Db, Error}
use creel.Store.Chunks.{find_document, active_in}
use creel.Worker.Status.Marking.{status_of}
use creel.Worker.Extraction
use creel.Worker.Extraction.{Parsers, extract_text}
use creel.Worker.Chunking
use creel.Worker.Chunking.{Llm, is_semantic, size_of, overlap_of}
use creel.Worker.Split.{split_text}
use creel.Worker.Embedding
use creel.Worker.Embedding.{Provider, needs_embedding}
use creel.Worker.Pipeline.Achieves.{IsHealthy}
use creel.Worker.Pipeline.Statements.{Stage, queued_for, row}
use creel.Worker.Pipeline.Stages.{rows, extraction-Achieves, chunking-Achieves}
use creel.Worker.Pipeline.Vectors.{IsOf, Holds}
use creel.Worker.Pipeline.Embedded.{IsEmbedded}
use creel.Worker.Pipeline.Listed.{Answers, embedding-Achieves}

-- The tables hold an uploaded document: its text can be read, and its topic splits by size.
pub record Uploaded (ps : Parsers) (id : String) (text : List ℕ) (pieces : List (List ℕ)) (db : Db)
    : Type 0 where
  pub topic_id : String
  pub topic : Topic
  pub raw : List ℕ
  pub content_type : String
  pub old : List ℕ
  pub stage : Stage id topic_id topic raw content_type old db.chunks db
  pub extracts : extract_text ps raw content_type ≡ ok text
  pub nonempty : is_empty text ≡ false
  pub fixed : is_semantic topic.chunking_strategy ≡ false
  pub split :
      split_text text (size_of topic.chunking_strategy) (overlap_of topic.chunking_strategy)
      ≡ some pieces

-- What the three runs of a document's jobs come to, each from where the one before ended.
pub record Delivered (provider : Provider) (id : String) (pieces : List (List ℕ)) (db : Db)
    (r s t : Result Error (Unit {0}) × World) : Type 0 where
  pub extracted : r.0 ≡ ok tt
  pub chunking_queued : queued_for id "chunking" r.1.db ≡ true
  pub chunked : s.0 ≡ ok tt
  pub embedding_queued : queued_for id "embedding" s.1.db ≡ true
  pub embedded : t.0 ≡ ok tt
  pub is_ready : status_of (find_document id t.1.db.documents) ≡ some ready
  pub chunks : map row t.1.db.chunks ≡ map row db.chunks ++ rows id 0 pieces
  pub vectors :
      (c : Chunk)
      → Memᴰ c t.1.db.chunks
      → active_in id none c ≡ true
      → IsEmbedded (IsOf provider s.1.db.chunks) id db.chunks t.1.db c

old_one :
    (old new : List Chunk) (c : Chunk)
    → ((x : Chunk) → Memᴰ x new → needs_embedding x ≡ true)
    → needs_embedding c ≡ false
    → Memᴰ c (old ++ new)
    → Memᴰ c old
old_one old new c h b m = elim (either-Memᴰ old new c m) [ inl n ↦ n | inr n ↦ absurd (cc (h c n)) ]

map-append-row : (xs ys : List Chunk) → map row (xs ++ ys) ≡ map row xs ++ map row ys
map-append-row [] ys = refl
map-append-row (x ∷ xs) ys = ap (λ rs. row x ∷ rs) (map-append-row xs ys)

-- When no statement fails and the provider gives a vector for each text, an uploaded document whose
-- text can be read, is not empty and is split by size comes through: each of the three runs ends
-- without an error and the first two leave the job of the next; at the end the document is `ready`,
-- the chunks are those of before and the pieces of the text numbered from one, and each active chunk
-- of the document had an embedding before, or the backend's row for its ID holds the vector at the
-- place of a text in an answer of the provider, the text being that of a chunk with this ID.
pub process_delivers :
    (ps : Parsers) (llm : Option Llm) (provider : Provider) (job : ProcessingJob) (text : List ℕ)
    (pieces : List (List ℕ)) (w : World)
    → IsHealthy w.env
    → Answers provider
    → Uploaded ps job.document_id text pieces w.db
    → Delivered provider job.document_id pieces w.db
        (Extraction.process ps job w)
        (Chunking.process llm job (Extraction.process ps job w).1)
        (Embedding.process provider job
          (Chunking.process llm job (Extraction.process ps job w).1).1)
process_delivers ps llm provider job text pieces w healthy answers u =
    let id : String = job.document_id in
    let r =
      (extraction-Achieves id u.topic_id u.topic u.raw u.content_type ps job u.old text w.db.chunks
          refl u.extracts).at
        w healthy u.stage in
    let s =
      (chunking-Achieves id u.topic_id u.topic u.raw u.content_type text llm job pieces w.db.chunks
          refl u.nonempty u.fixed u.split).at
        _ (λ n. rw r.same_env (healthy n)) r.state.0 in
    let t =
      (embedding-Achieves id u.topic_id u.topic u.raw u.content_type text provider job
          (w.db.chunks ++ s.state.0.0) refl answers).at
        _ (λ n. rw s.same_env (rw r.same_env (healthy n))) s.state.0.1 in
    let t' =
      (Embedding.process provider job
        (Chunking.process llm job (Extraction.process ps job w).1).1).1 in
    record {
      extracted = r.returned;
      chunking_queued = r.state.1;
      chunked = s.returned;
      embedding_queued = s.state.1;
      embedded = t.returned;
      is_ready = t.state.2;
      chunks =
          t.state.1.kept
          ∙ map-append-row w.db.chunks s.state.0.0
          ∙ ap (λ rs. map row w.db.chunks ++ rs) s.state.0.2;
      vectors = λ c m act. elim (t.state.1.settled c m act) [
        | inl pending ↦ cc
        | inr (inl (n, b)) ↦ inl (old_one w.db.chunks s.state.0.0 c s.state.0.3 b n, b)
        | inr (inr (i, held)) ↦
            inr (i, subst (λ xs. Holds (IsOf provider xs) c.id t'.db) (sym s.state.0.1.stored) held)
      ];
    }
