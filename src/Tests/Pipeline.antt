-- ===== src/Tests/Pipeline.antt =====
-- Tests and examples of the workers of internal/worker that a document passes through.
use creel.Base.{
  ℕ, arith, ap, ◌<◌, pos, List, [], ◌∷◌, ◌++◌, none, some, ◌≡◌, refl, Memᴰ, length, get_elem?,
  string_dec,
}
use creel.Exec.{ok, err}
use creel.Store.Rows.{ProcessingJob, str, DocumentContent, Vector}
use creel.Store.World.{World, statement}
use creel.Store.Documents
use creel.Worker.Text.{line_feed, extract_json, trim_space}
use creel.Worker.Text.Fences.{one_line, are_spaces, closed, extract_json_fenced}
use creel.Worker.Split.{
  split_text, split_from, effective_size, effective_overlap, non_negative, chunk_end,
}
use creel.Worker.Status.{fail_document}
use creel.Worker.Extraction
use creel.Worker.Extraction.{
  Parsers, extract_text, effective_type, media_type, before_semicolon, lower, to_lower, same_codes,
}
use creel.Worker.Chunking
use creel.Worker.Chunking.{size_of, overlap_of}
use creel.Worker.Embedding
use creel.Worker.Embedding.{Provider}
use creel.Worker.Failing.{Ended, process_error_marks}
use creel.Worker.Providers.{Datum, embed_answer, place}
use creel.Worker.Providers.Placed.{Unique, embed_answer_bounds}
use creel.Worker.Compaction
use creel.Worker.Compaction.{Summarize}
use creel.Worker.Compaction.Kept.{Kept, process-Kept}
use creel.Worker.Pipeline.Delivery.{Uploaded, Delivered, process_delivers}
use creel.Worker.Messages
use creel.Worker.Messages.{Message, Extractor}
use creel.Tests.Data.{job, tables, topic, world}

-- Two spaces, ```j, a line feed, [1], a closing fence and a line feed.
extract_json_fenced_example :
    extract_json (
      (32 ∷ 32 ∷ [])
      ++ (closed ((b'j' ∷ []) ++ line_feed ∷ (32 ∷ b'[' ∷ b'1' ∷ b']' ∷ [])) ++ (line_feed ∷ [])))
    ≡ trim_space (32 ∷ b'[' ∷ b'1' ∷ b']' ∷ [])
unfolding one_line are_spaces
extract_json_fenced_example =
    extract_json_fenced (32 ∷ 32 ∷ []) (b'j' ∷ []) (32 ∷ b'[' ∷ b'1' ∷ b']' ∷ []) (line_feed ∷ [])
      refl refl refl

abbrev texts : List (List ℕ)
texts = (1 ∷ []) ∷ (2 ∷ []) ∷ []

-- The vectors come in the other order.
abbrev answer : List Datum
answer =
    record { index = pos 1; embedding = 8 ∷ [] } ∷ record { index = pos 0; embedding = 7 ∷ [] } ∷ []

abbrev vectors : List Vector
vectors = (7 ∷ []) ∷ (8 ∷ []) ∷ []

places : embed_answer texts answer ≡ ok vectors
unfolding embed_answer place
places = refl

different : Unique answer
different = (
  λ e m q. elim m [ Memᴰ.head p ↦ ground (arith, ap (λ x. x.index) p) | Memᴰ.tail n ↦ elim n [ ] ],
  ((λ e m. elim m [ ]), tt),
)

embed_answer_bounds_example :
    (length vectors ≡ length texts)
    × ((d : Datum)
        → Memᴰ d answer
        → (i : ℕ) × (d.index ≡ pos i)
          × (i < length texts)
          × (get_elem? vectors i ≡ some d.embedding))
embed_answer_bounds_example = embed_answer_bounds texts answer vectors places different

abbrev parsers : Parsers
parsers = record {
  parse_html = λ raw. err "html";
  parse_pdf = λ raw. err "pdf";
  detect_content_type = λ raw. [];
}

-- A vector for each text.
abbrev provider : Provider
provider = record { embed = λ ts. ok ts; model = "m" }

abbrev summarize : Summarize
summarize contents = ok (9 ∷ [])

abbrev uploaded : DocumentContent
uploaded = record {
  document_id = "d1";
  raw_content = b'h' ∷ b'i' ∷ [];
  content_type = "text/plain";
  extracted_text = [];
  updated_at = 0;
}

abbrev uploaded_world : World
uploaded_world = record world { db = record tables { contents = uploaded ∷ [] } }

extracts_text : extract_text parsers (b'h' ∷ b'i' ∷ []) "text/plain" ≡ ok (b'h' ∷ b'i' ∷ [])
unfolding extract_text effective_type media_type before_semicolon lower to_lower same_codes
    trim_space
extracts_text = refl

splits_text :
    split_text (b'h' ∷ b'i' ∷ []) (size_of none) (overlap_of none) ≡ some ((b'h' ∷ b'i' ∷ []) ∷ [])
unfolding split_text split_from effective_size effective_overlap non_negative chunk_end size_of
    overlap_of
splits_text = refl

document-Uploaded :
    Uploaded parsers "d1" (b'h' ∷ b'i' ∷ []) ((b'h' ∷ b'i' ∷ []) ∷ []) uploaded_world.db
unfolding string_dec
document-Uploaded = record {
  topic_id = "t1";
  topic = topic "t1" "alice";
  raw = b'h' ∷ b'i' ∷ [];
  content_type = "text/plain";
  old = [];
  stage = record {
    document = refl;
    topic_row = refl;
    content = (uploaded, refl, refl, refl, refl);
    stored = refl;
  };
  extracts = extracts_text;
  nonempty = refl;
  fixed = refl;
  split = splits_text;
}

abbrev extracted_world : World
extracted_world = (Extraction.process parsers (job "j1" 8) uploaded_world).1

abbrev chunked_world : World
chunked_world = (Chunking.process none (job "j1" 8) extracted_world).1

process_delivers_example :
    Delivered provider "d1"
      ((b'h' ∷ b'i' ∷ []) ∷ [])
      uploaded_world.db
      (Extraction.process parsers (job "j1" 8) uploaded_world)
      (Chunking.process none (job "j1" 8) extracted_world)
      (Embedding.process provider (job "j1" 8) chunked_world)
process_delivers_example =
    process_delivers parsers none provider (job "j1" 8) (b'h' ∷ b'i' ∷ []) ((b'h' ∷ b'i' ∷ []) ∷ [])
      uploaded_world (λ n. refl) (λ ts. (ts, refl, refl)) document-Uploaded

-- Without content.
process_error_marks_example :
    Ended "d1" (Extraction.process parsers (job "j1" 8) world)
    × Ended "d1" (Chunking.process none (job "j1" 8) world)
    × Ended "d1" (Embedding.process provider (job "j1" 8) world)
process_error_marks_example = process_error_marks parsers none provider (job "j1" 8) world

fails_without_content :
    (Extraction.process parsers (job "j1" 8) world).0 ≡ err "getting document content"
unfolding Extraction.process Documents.update_status Documents.get_content statement string_dec
    Documents.set_status fail_document
fails_without_content = refl

process-Kept_example :
    Kept "d1" tables.chunks (Compaction.process summarize provider (job "j1" 8) world).1.db.chunks
process-Kept_example = process-Kept summarize provider (job "j1" 8) world

abbrev message : Message
message = record { role = "user"; content = "I like tea" }

-- Two facts with an empty one between them.
abbrev extractor : Extractor
extractor = record {
  parse_messages = λ raw. some (message ∷ []);
  complete = λ ms. ok [];
  parse_facts = λ answer. some ("likes tea" ∷ "" ∷ "drinks tea" ∷ []);
}

abbrev messages_job : ProcessingJob
messages_job = record (job "j1" 8) {
  document_id = "";
  progress = ("principal", str "alice") ∷ ("messages", str "") ∷ [];
}
