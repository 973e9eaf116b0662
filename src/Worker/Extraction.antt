-- ===== src/Worker/Extraction.antt =====
-- internal/worker/extraction.go: the text of an uploaded document. The parsers of HTML and PDF and
-- `http.DetectContentType` are parameters.
use Prim.Native.Char.{code}
use creel.Base.{
  ℕ, ◌+◌, String, Bool, true, false, List, [], ◌∷◌, ◌++◌, Option, none, some, ◌&&◌, ◌||◌, eqb, leb,
  is_empty, ◌==◌, if◌then◌else◌,
}
use creel.Exec.{Exec, Result, ok, err, pure, or_fail, ◌>>=◌, ◌>>◌}
use creel.Store.Rows.{ProcessingJob, processing}
use creel.Store.World.{World, Error}
use creel.Store.Documents
use creel.Store.Jobs
use creel.Worker.Text.{trim_space}
use creel.Worker.Status.{or_fail_document, result}

-- html.Node: an element or another node with its name, or a text. Siblings form a list.
mutual
  pub data HtmlNode : Type 0 where
    element : String → HtmlNodes → HtmlNode
    text : List ℕ → HtmlNodes → HtmlNode
    other : HtmlNodes → HtmlNode

  pub data HtmlNodes : Type 0 where
    no_nodes : HtmlNodes
    node : HtmlNode → HtmlNodes → HtmlNodes

-- "%s " of a trimmed text that is not empty.
abbrev word : List ℕ → List ℕ
word [] = []
word (b ∷ t) = (b ∷ t) ++ 32 ∷ []

-- extractHTMLText: what it writes.
unfoldable mutual
  unfolding trim_space

  pub html_text : HtmlNode → List ℕ
  html_text (element name children) =
      let rest = html_texts children in if name == "script" || name == "style" then [] else rest
  html_text (text t children) = word (trim_space t) ++ html_texts children
  html_text (other children) = html_texts children

  pub html_texts : HtmlNodes → List ℕ
  html_texts no_nodes = []
  html_texts (node n ns) = html_text n ++ html_texts ns

-- Code that is not the repository's. The PDF reader gives the plain text
-- of all pages, or the error of the step that failed.
pub record Parsers : Type 0 where
  pub parse_html : List ℕ → Result Error HtmlNode
  pub parse_pdf : List ℕ → Result Error (List ℕ)
  pub detect_content_type : List ℕ → List ℕ

-- The code points of a string.
abbrev pub codes : String → List ℕ
codes String.[] = []
codes (String.◌∷◌ c s) = code c ∷ codes s

-- `strings.ToLower`, so far as it decides what follows: of the letters beyond ASCII only the dotted
-- I and the Kelvin sign become ASCII letters.
unfoldable pub to_lower : ℕ → ℕ
to_lower c =
    if leb b'A' c && leb c b'Z'
    then c + 32
    else if eqb c 0x130
    then b'i'
    else if eqb c 0x212a
    then b'k'
    else c

unfoldable pub lower : List ℕ → List ℕ
unfolding to_lower
lower [] = []
lower (c ∷ s) = to_lower c ∷ lower s

-- `ct[:idx]` for the first semicolon, if there is one.
unfoldable pub before_semicolon : List ℕ → Option (List ℕ)
before_semicolon [] = none
before_semicolon (c ∷ s) =
    if eqb c b';'
    then some []
    else elim (before_semicolon s) [ none ↦ none | some r ↦ some (c ∷ r) ]

abbrev media_part : List ℕ → Option (List ℕ) → List ℕ
media_part ct none = ct
media_part ct (some r) = trim_space r

-- The media type of a content type: its lower-case part before the parameters.
unfoldable pub media_type : List ℕ → List ℕ
unfolding trim_space lower before_semicolon
media_type ct = let folded = lower (trim_space ct) in media_part folded (before_semicolon folded)

-- For a detected type the source lowers it and cuts it without trimming it first.
unfoldable pub detected_type : List ℕ → List ℕ
unfolding trim_space lower before_semicolon
detected_type ct = media_part (lower ct) (before_semicolon (lower ct))

unfoldable pub effective_type : Parsers → List ℕ → List ℕ → List ℕ
unfolding media_type detected_type
effective_type ps raw content_type =
    if is_empty (media_type content_type)
    then detected_type (ps.detect_content_type raw)
    else media_type content_type

unfoldable pub same_codes : List ℕ → List ℕ → Bool
same_codes [] [] = true
same_codes (a ∷ s) (b ∷ t) = eqb a b && same_codes s t
same_codes _ _ = false

abbrev trimmed : Result Error (List ℕ) → Result Error (List ℕ)
trimmed (err e) = err e
trimmed (ok t) = ok (trim_space t)

-- extractHTML.
unfoldable pub extract_html : Parsers → List ℕ → Result Error (List ℕ)
unfolding html_text trim_space
extract_html ps raw = elim (ps.parse_html raw) [
  | err _ ↦ err "parsing HTML"
  | ok doc ↦ ok (trim_space (html_text doc))
]

-- extractPDF.
unfoldable pub extract_pdf : Parsers → List ℕ → Result Error (List ℕ)
unfolding trim_space
extract_pdf ps raw = trimmed (ps.parse_pdf raw)

-- ExtractText: the switch over the media type.
unfoldable pub extract_text : Parsers → List ℕ → String → Result Error (List ℕ)
unfolding effective_type same_codes extract_html extract_pdf
extract_text ps raw content_type =
    let ct = effective_type ps raw (codes content_type) in
    if same_codes ct (codes "text/plain")
    then ok raw
    else if same_codes ct (codes "text/html") || same_codes ct (codes "application/xhtml+xml")
    then extract_html ps raw
    else if same_codes ct (codes "application/pdf")
    then extract_pdf ps raw
    else err "unsupported content type"

-- ExtractionWorker.Process.
unfoldable pub process : Parsers → ProcessingJob → Exec World Error (Unit {0})
process ps job = do
  let id = job.document_id
  or_fail (Documents.update_status id processing) "setting document status to processing"
  content ←
      or_fail_document (Documents.get_content id) id
        "setting document status to failed after content error" "getting document content"
  extracted ←
      or_fail_document (result (extract_text ps content.raw_content content.content_type)) id
        "setting document status to failed after extraction error" "extracting text"
  or_fail_document (Documents.save_extracted_text id extracted) id
      "setting document status to failed after save error" "saving extracted text"
  or_fail_document (Jobs.create id "chunking") id
      "setting document status to failed after job creation error" "creating chunking job"
  pure tt
