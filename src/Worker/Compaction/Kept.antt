-- ===== src/Worker/Compaction/Kept.antt =====
-- What internal/worker/compaction.go does to the chunks, whatever the LLM and the provider answer.
use creel.Base.{
  ℕ, ℤ, String, Bool, true, false, List, [], ◌∷◌, ◌++◌, ◌≡◌, refl, ap, sym, ◌∙◌, ◌⊎◌, inl, inr,
  Bool-cases, map, length, ltb, if◌then◌else◌,
}
use mathlib.Core.List.{append-nil}
use creel.Exec.{Exec, or_fail, ◌>>=◌, Result-cases}
use creel.Store.Rows.{Chunk, ProcessingJob, Metadata}
use creel.Store.World.{World, Error, statement}
use creel.Store.Jobs.{has_document}
use creel.Store.Chunks
use creel.Store.Chunks.{new_chunk, set_embedding, mark, to_compact}
use creel.Worker.Embedding.{Provider}
use creel.Worker.Compaction.{Summarize, chunks_to_compact, compact, process}
use creel.Worker.Compaction.Still.{
  identity, Still, still_rules, pure-Still, transfer_all-Still, store_summary-Still, map-append,
}

-- Every chunk is still there as it was; at most one is added, to a document.
pub record Kept (document_id : String) (before after : List Chunk) : Type 0 where
  pub added : List Chunk
  pub rows : map identity after ≡ map identity before ++ map identity added
  pub own : (added ≡ []) ⊎ ((c : Chunk) × (added ≡ c ∷ []) × (c.document_id ≡ document_id))

-- Steps that add at most one chunk, to the document.
record Grows (document_id : String) {E A : Type 0} (m : Exec World E A) : Type 0 where
  pub at : (w : World) → Kept document_id w.db.chunks (m w).1.db.chunks

module _ (document_id : String) where
  same-Kept :
      (before after : List Chunk)
      → map identity after ≡ map identity before
      → Kept document_id before after
  same-Kept before after e = record {
    added = [];
    rows = e ∙ sym (append-nil (map identity before));
    own = inl refl;
  }

  unchanged-Grows : {E A : Type 0} {m : Exec World E A} → Still m → Grows document_id m
  unchanged-Grows h = record { at = λ w. same-Kept _ _ (h.at w) }

  before-Grows :
      {E A B : Type 0} {m : Exec World E A} {k : A → Exec World E B}
      → Still m
      → ((a : A) → Grows document_id (k a))
      → Grows document_id (m >>= k)
  before-Grows {m} {k} h c = record {
    at = λ w. elim (Result-cases (m w).0) [
      | inl (a, r) ↦
          let g = (c a).at (m w).1 in
          rw r (record {
            added = g.added;
            rows = g.rows ∙ ap (λ rs. rs ++ map identity g.added) (h.at w);
            own = g.own;
          })
      | inr (x, r) ↦ rw r (same-Kept _ _ (h.at w))
    ];
  }

  after-Grows :
      {E A B : Type 0} {m : Exec World E A} {k : A → Exec World E B}
      → Grows document_id m
      → ((a : A) → Still (k a))
      → Grows document_id (m >>= k)
  after-Grows {m} {k} h c = record {
    at = λ w. elim (Result-cases (m w).0) [
      | inl (a, r) ↦
          let g = h.at w in
          rw r (record { added = g.added; rows = (c a).at (m w).1 ∙ g.rows; own = g.own })
      | inr (x, r) ↦ rw r (h.at w)
    ];
  }

  if-Grows :
      {E A : Type 0} (b : Bool) {m n : Exec World E A}
      → Grows document_id m
      → Grows document_id n
      → Grows document_id (if b then m else n)
  if-Grows true h k = h
  if-Grows false h k = k

  create-Grows :
      (content : List ℕ) (sequence : ℤ) (meta : Metadata) (e : Error)
      → Grows document_id (or_fail (Chunks.create document_id content sequence meta) e)
  unfolding Chunks.create statement
  create-Grows content sequence meta e = record {
    at = λ w. elim (Bool-cases (w.env.fails w.tick)) [
      | inl f ↦ rw f (same-Kept _ _ refl)
      | inr f ↦ elim (Bool-cases (has_document w.db.documents document_id)) [
        | inl h ↦
            let c = new_chunk w document_id content sequence meta in
            rw (f, h)
              (record {
                added = c ∷ [];
                rows = map-append w.db.chunks (c ∷ []);
                own = inr (c, refl, refl);
              })
        | inr h ↦ rw (f, h) (same-Kept _ _ refl)
      ]
    ];
  }

compact-Grows :
    (summarize : Summarize) (provider : Provider) (job : ProcessingJob) (chunks : List Chunk)
    → Grows job.document_id (compact summarize provider job chunks)
unfolding compact
compact-Grows summarize provider job chunks =
    search
      (
        still_rules, transfer_all-Still, store_summary-Still, before-Grows, after-Grows,
        create-Grows,
      )
      depth 20

chunks_to_compact-Still : (job : ProcessingJob) → Still (chunks_to_compact job)
unfolding chunks_to_compact
chunks_to_compact-Still job = search still_rules depth 8

process-Grows :
    (summarize : Summarize) (provider : Provider) (job : ProcessingJob)
    → Grows job.document_id (process summarize provider job)
unfolding process
process-Grows summarize provider job = before-Grows _ (chunks_to_compact-Still job) λ chunks.
    if-Grows _ (ltb (length chunks) 2) (unchanged-Grows _ (pure-Still tt))
      (compact-Grows summarize provider job chunks)

-- Whatever statements fail and whatever the LLM and the provider answer, compacting keeps every chunk
-- with its ID, document, content and sequence number, in the same order; at most one chunk is added,
-- to the document of the job.
pub process-Kept :
    (summarize : Summarize) (provider : Provider) (job : ProcessingJob) (w : World)
    → Kept job.document_id w.db.chunks (process summarize provider job w).1.db.chunks
process-Kept summarize provider job w = (process-Grows summarize provider job).at w
