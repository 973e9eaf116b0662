-- ===== src/Worker/Chunking.antt =====
-- internal/worker/chunking.go: the worker that splits a document's text. The LLM and the reading of
-- its JSON answer are parameters; the prompt is a constant of the source.
use creel.Base.{
  ℕ, suc, ℤ, pos, String, Bool, false, List, [], ◌∷◌, Option, none, some, not, ◌==◌, is_empty,
  if◌then◌else◌,
}
use creel.Exec.{Exec, Result, ok, err, pure, ◌>>=◌, ◌>>◌}
use creel.Store.Rows.{ProcessingJob, ChunkingStrategy}
use creel.Store.World.{World, Error}
use creel.Store.Documents
use creel.Store.Topics
use creel.Store.Chunks
use creel.Store.Jobs
use creel.Worker.Text.{trim_space, extract_json, strip_fences}
use creel.Worker.Status.{fail_document, guard_document, or_fail_document, result}
use creel.Worker.Split.{split_text, default_chunk_size, default_chunk_overlap}

-- llm.Provider on the prompt for a text, and `json.Unmarshal` into a slice of strings.
pub record Llm : Type 0 where
  pub complete : List ℕ → Result Error (List ℕ)
  pub parse_strings : List ℕ → Option (List (List ℕ))

-- The loop that trims the chunks and drops the empty ones.
unfoldable pub trimmed_chunks : List (List ℕ) → List (List ℕ)
unfolding trim_space
trimmed_chunks [] = []
trimmed_chunks (c ∷ cs) =
    let rest = trimmed_chunks cs in
    let trimmed = trim_space c in if is_empty trimmed then rest else trimmed ∷ rest

abbrev some_chunks : List (List ℕ) → Result Error (List (List ℕ))
some_chunks [] = err "LLM returned no chunks"
some_chunks (c ∷ cs) = ok (c ∷ cs)

abbrev parsed_chunks : Option (List (List ℕ)) → Result Error (List (List ℕ))
parsed_chunks none = err "parsing LLM chunking response"
parsed_chunks (some cs) = some_chunks (trimmed_chunks cs)

-- ChunkingWorker.splitSemantic.
unfoldable pub split_semantic : Llm → List ℕ → Result Error (List (List ℕ))
unfolding trimmed_chunks strip_fences extract_json
split_semantic llm text = elim (llm.complete text) [
  | err _ ↦ err "calling LLM for semantic chunking"
  | ok answer ↦ parsed_chunks (llm.parse_strings (extract_json (strip_fences answer)))
]

abbrev pub is_semantic : Option ChunkingStrategy → Bool
is_semantic none = false
is_semantic (some s) = s.type == "semantic"

abbrev positive_or : ℕ → ℤ → ℤ
positive_or d (pos (suc n)) = pos (suc n)
positive_or d _ = pos d

unfoldable pub size_of : Option ChunkingStrategy → ℤ
size_of none = pos default_chunk_size
size_of (some s) = positive_or default_chunk_size s.chunk_size

unfoldable pub overlap_of : Option ChunkingStrategy → ℤ
overlap_of none = pos default_chunk_overlap
overlap_of (some s) = positive_or default_chunk_overlap s.chunk_overlap

-- The fuel of `split_text` is always enough, so that the first case does not arise.
abbrev or_no_chunks : Option (List (List ℕ)) → List (List ℕ)
or_no_chunks none = []
or_no_chunks (some cs) = cs

-- The choice of the strategy.
abbrev pub semantic_chunks : String → Option Llm → List ℕ → Exec World Error (List (List ℕ))
semantic_chunks id none text =
    fail_document id "setting document status to failed"
      "semantic chunking requires an LLM provider but none is configured"
semantic_chunks id (some llm) text =
    or_fail_document (result (split_semantic llm text)) id
      "setting document status to failed after semantic chunking error" "semantic chunking"

unfoldable pub split_by :
    String → Option Llm → Option ChunkingStrategy → List ℕ → Exec World Error (List (List ℕ))
unfolding split_semantic split_text size_of overlap_of fail_document
split_by id llm strategy text =
    if is_semantic strategy
    then semantic_chunks id llm text
    else pure (or_no_chunks (split_text text (size_of strategy) (overlap_of strategy)))

-- The loop that stores the chunks; `i` counts those before.
unfoldable pub create_chunks : String → ℕ → List (List ℕ) → Exec World Error (Unit {0})
create_chunks id i [] = pure tt
create_chunks id i (text ∷ texts) =
    or_fail_document (Chunks.create id text (pos (suc i)) []) id
      "setting document status to failed after chunk creation error" "creating chunk"
    >> create_chunks id (suc i) texts

-- ChunkingWorker.Process.
unfoldable pub process : Option Llm → ProcessingJob → Exec World Error (Unit {0})
process llm job = do
  let id = job.document_id
  content ←
      or_fail_document (Documents.get_content id) id
        "setting document status to failed after content error" "getting document content"
  guard_document (not (is_empty content.extracted_text)) id "setting document status to failed"
      "extracted text is empty"
  topic_id ←
      or_fail_document (Documents.topic_id_for_document id) id
        "setting document status to failed after topic lookup error" "looking up document topic"
  topic ←
      or_fail_document (Topics.get topic_id) id
        "setting document status to failed after topic get error" "getting topic"
  chunks ← split_by id llm topic.chunking_strategy content.extracted_text
  create_chunks id 0 chunks
  or_fail_document (Jobs.create id "embedding") id
      "setting document status to failed after embedding job creation error"
      "creating embedding job"
  pure tt
