-- ===== src/Server/Document.antt =====
-- internal/server/document.go: the DocumentService.
pub mod Guarded
use creel.Base.{
  is_empty, ℕ, String, Bool, true, false, List, Option, none, some, ◌||◌, ◌&&◌, not, ◌==◌,
  if◌then◌else◌,
}
use creel.Exec.{Exec, Result, ok, err, pure, fail, guard, ◌>>=◌, ◌>>◌}
use creel.Store.Rows.{Principal, Action, Metadata, Document, pending}
use creel.Store.World.{World}
use creel.Store.Documents
use creel.Store.Documents.{NewDocument}
use creel.Store.Jobs
use creel.Server.Status.{
  Code, Handler, authenticate, authorize, or_internal, or_not_found, invalid_argument,
}

-- The fields that the requests share; empty strings stand for fields that are not set.
pub record DocumentRequest : Type 0 where
  pub id : String
  pub topic_id : String
  pub slug : String
  pub name : String
  pub doc_type : String
  pub metadata : Metadata
  pub url : String
  pub author : String
  pub published_at : Option ℕ

abbrev pub or_else : String → String → String
or_else s default = if s == "" then default else s

-- `if x != "" { v = &x }`.
abbrev pub optional : String → Option String
optional s = if s == "" then none else some s

-- `generated` is what `slug.Generate` makes of the name; `url` is the citation URL.
abbrev pub new_document : String → DocumentRequest → Option String → NewDocument
new_document generated req url = record {
  topic_id = req.topic_id;
  slug = or_else req.slug generated;
  name = req.name;
  doc_type = or_else req.doc_type "reference";
  metadata = req.metadata;
  url = url;
  author = optional req.author;
  published_at = req.published_at;
}

unfoldable pub create_document : String → Option Principal → DocumentRequest → Handler Document
create_document generated p req = do
  caller ← authenticate p
  guard (not (req.topic_id == "" || req.name == "")) invalid_argument
  authorize caller req.topic_id Action.write
  or_internal (Documents.create (new_document generated req (optional req.url)))

unfoldable pub get_document : Option Principal → String → Handler Document
get_document p id = do
  caller ← authenticate p
  guard (not (id == "")) invalid_argument
  d ← or_not_found (Documents.get id)
  authorize caller d.topic_id Action.read
  pure d

unfoldable pub list_documents : Option Principal → String → Handler (List Document)
list_documents p topic_id = do
  caller ← authenticate p
  guard (not (topic_id == "")) invalid_argument
  authorize caller topic_id Action.read
  or_internal (Documents.list_by_topic topic_id)

-- Unlike a new document, an updated one takes an empty type as it is.
abbrev pub changes : DocumentRequest → NewDocument
changes req = record {
  topic_id = req.topic_id;
  slug = req.slug;
  name = req.name;
  doc_type = req.doc_type;
  metadata = req.metadata;
  url = optional req.url;
  author = optional req.author;
  published_at = req.published_at;
}

unfoldable pub update_document : Option Principal → DocumentRequest → Handler Document
update_document p req = do
  caller ← authenticate p
  guard (not (req.id == "")) invalid_argument
  topic_id ← or_not_found (Documents.topic_id_for_document req.id)
  authorize caller topic_id Action.write
  or_internal (Documents.update_document req.id (changes req))

unfoldable pub delete_document : Option Principal → String → Handler (Unit {0})
delete_document p id = do
  caller ← authenticate p
  guard (not (id == "")) invalid_argument
  topic_id ← or_not_found (Documents.topic_id_for_document id)
  authorize caller topic_id Action.admin
  or_internal (Documents.delete id)

-- fetch.Fetcher, which may be missing: the body and the content type of a URL. It has no tables.
abbrev pub Fetcher : Type 0
Fetcher = Option (String → Result String (List ℕ × String))

pub record UploadRequest : Type 0 where
  pub document : DocumentRequest
  pub file : List ℕ
  pub content_type : String
  pub source_url : String

-- Exactly one of the file and the URL.
abbrev pub one_source : UploadRequest → Bool
one_source req = if is_empty req.file then not (req.source_url == "") else req.source_url == ""

abbrev pub fetched : Result String (List ℕ × String) → Handler (List ℕ × String)
fetched (ok body) = pure body
fetched (err e) = fail invalid_argument

abbrev pub content : Fetcher → UploadRequest → Handler (List ℕ × String)
content none req =
    if req.source_url == "" then pure (req.file, req.content_type) else fail Code.internal
content (some fetch) req =
    if req.source_url == ""
    then pure (req.file, req.content_type)
    else fetched (fetch req.source_url)

unfoldable pub upload_document :
    Fetcher → String → Option Principal → UploadRequest → Handler (Document × String)
upload_document fetcher generated p req = do
  caller ← authenticate p
  guard (not (req.document.topic_id == "" || req.document.name == "")) invalid_argument
  guard (one_source req) invalid_argument
  authorize caller req.document.topic_id Action.write
  (raw, fetched_type) ← content fetcher req
  d ← or_internal (
      Documents.create_with_status
        (new_document generated req.document (optional (or_else req.document.url req.source_url)))
        pending)
  or_internal (Documents.save_content d.id raw (or_else req.content_type fetched_type))
  job ← or_internal (Jobs.create d.id "extraction")
  pure (d, job.id)
