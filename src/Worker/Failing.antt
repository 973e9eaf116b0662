-- ===== src/Worker/Failing.antt =====
-- What an error of the pipeline's workers leaves behind (extraction.go, chunking.go and embedding.go
-- of internal/worker).
use creel.Base.{ℕ, suc, String, List, [], ◌∷◌, Option, none, some, ◌≡◌, refl}
use creel.Exec.{Result, ok, err}
use creel.Store.Rows.{ProcessingJob, ChunkingStrategy, Chunk}
use creel.Store.World.{World, Error}
use creel.Worker.Status.Marking.{
  Marked, FailsMarked, bind-FailsMarked, step-FailsMarked, marking_rules,
}
use creel.Worker.Extraction
use creel.Worker.Extraction.{Parsers}
use creel.Worker.Chunking
use creel.Worker.Chunking.{Llm, split_by, create_chunks}
use creel.Worker.Embedding
use creel.Worker.Embedding.{Provider, set_embedding_ids, embed_chunks}

extraction-FailsMarked :
    (ps : Parsers) (job : ProcessingJob) → FailsMarked job.document_id (Extraction.process ps job)
unfolding Extraction.process
extraction-FailsMarked ps job = search (marking_rules, bind-FailsMarked) depth 14

semantic-FailsMarked :
    (id : String) (llm : Option Llm) (text : List ℕ)
    → FailsMarked id (Chunking.semantic_chunks id llm text)
semantic-FailsMarked id none text = search marking_rules
semantic-FailsMarked id (some llm) text = search marking_rules

split_by-FailsMarked :
    (id : String) (llm : Option Llm) (strategy : Option ChunkingStrategy) (text : List ℕ)
    → FailsMarked id (split_by id llm strategy text)
unfolding split_by
split_by-FailsMarked id llm strategy text = search (marking_rules, semantic-FailsMarked) depth 6

create_chunks-FailsMarked :
    (id : String) (i : ℕ) (texts : List (List ℕ)) → FailsMarked id (create_chunks id i texts)
unfolding create_chunks
create_chunks-FailsMarked id i [] = search marking_rules
create_chunks-FailsMarked id i (t ∷ ts) =
    bind-FailsMarked id (step-FailsMarked id _ _ _) (λ _. create_chunks-FailsMarked id (suc i) ts)

chunking-FailsMarked :
    (llm : Option Llm) (job : ProcessingJob)
    → FailsMarked job.document_id (Chunking.process llm job)
unfolding Chunking.process
chunking-FailsMarked llm job =
    search (marking_rules, bind-FailsMarked, split_by-FailsMarked, create_chunks-FailsMarked) depth
      20

set_embedding_ids-FailsMarked :
    (id : String) (cs : List Chunk) → FailsMarked id (set_embedding_ids id cs)
unfolding set_embedding_ids
set_embedding_ids-FailsMarked id [] = search marking_rules
set_embedding_ids-FailsMarked id (c ∷ cs) =
    bind-FailsMarked id (step-FailsMarked id _ _ _) (λ _. set_embedding_ids-FailsMarked id cs)

embed_chunks-FailsMarked :
    (provider : Provider) (id : String) (cs : List Chunk)
    → FailsMarked id (embed_chunks provider id cs)
unfolding embed_chunks
embed_chunks-FailsMarked provider id cs =
    search (marking_rules, bind-FailsMarked, set_embedding_ids-FailsMarked) depth 14

embedding-FailsMarked :
    (provider : Provider) (job : ProcessingJob)
    → FailsMarked job.document_id (Embedding.process provider job)
unfolding Embedding.process
embedding-FailsMarked provider job =
    search (marking_rules, bind-FailsMarked, embed_chunks-FailsMarked) depth 8

-- How a run may end: without an error, or with the document marked.
pub data Ended (id : String) : Result Error (Unit {0}) × World → Type 0 where
  finished : (w : World) → Ended id (ok tt, w)
  gave_up : (e : Error) (w : World) → Marked id w → Ended id (err e, w)

run-Ended :
    (id : String) (r : Result Error (Unit {0}) × World)
    → ((e : Error) → r.0 ≡ err e → Marked id r.1)
    → Ended id r
run-Ended id (ok tt, w) h = finished w
run-Ended id (err e, w) h = gave_up e w (h e refl)

-- When extracting, splitting or embedding a document ends in an error, the document is `failed`, or
-- it is not there, or the very last statement failed.
pub process_error_marks :
    (ps : Parsers) (llm : Option Llm) (provider : Provider) (job : ProcessingJob) (w : World)
    → Ended job.document_id (Extraction.process ps job w)
      × Ended job.document_id (Chunking.process llm job w)
      × Ended job.document_id (Embedding.process provider job w)
process_error_marks ps llm provider job w = (
  run-Ended _ _ ((extraction-FailsMarked ps job).at w),
  run-Ended _ _ ((chunking-FailsMarked llm job).at w),
  run-Ended _ _ ((embedding-FailsMarked provider job).at w),
)
