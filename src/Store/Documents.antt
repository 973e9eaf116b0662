-- ===== src/Store/Documents.antt =====
-- internal/store/document.go: the tables of documents and of their content.
use creel.Base.{
  sort_by, ℕ, String, Bool, List, [], ◌∷◌, ◌++◌, Option, none, some, ◌&&◌, not, leb, ◌==◌, contains,
  select, first, exists, update, if◌then◌else◌,
}
use creel.Exec.{Exec, Result, ok, err}
use creel.Store.Rows.{Document, DocumentContent, DocumentStatus, Metadata, ready}
use creel.Store.World.{World, Db, Error, statement, row_or}
use creel.Store.Schema.{has_topic}
use creel.Store.Jobs.{has_document}
use creel.Store.Chunks
use creel.Store.Chunks.{find_document}
use creel.Store.Cascade.{delete_documents}

-- The columns that a client gives a new document.
pub record NewDocument : Type 0 where
  pub topic_id : String
  pub slug : String
  pub name : String
  pub doc_type : String
  pub metadata : Metadata
  pub url : Option String
  pub author : Option String
  pub published_at : Option ℕ

abbrev new_document : World → NewDocument → DocumentStatus → Document
new_document w d status = record {
  id = w.env.new_id w.tick;
  topic_id = d.topic_id;
  slug = d.slug;
  name = d.name;
  doc_type = d.doc_type;
  status = status;
  metadata = d.metadata;
  created_at = w.env.now w.tick;
  updated_at = w.env.now w.tick;
  url = d.url;
  author = d.author;
  published_at = d.published_at;
}

-- DocumentStore.CreateWithStatus; the topic must be there, and (topic_id, slug) is unique.
unfoldable pub create_with_status : NewDocument → DocumentStatus → Exec World Error Document
unfolding statement
create_with_status d status = statement "inserting document" λ w.
    if has_topic w.db.topics d.topic_id
      && not (exists (λ r. r.topic_id == d.topic_id && r.slug == d.slug) w.db.documents)
    then (
      ok (new_document w d status),
      record w.db { documents = w.db.documents ++ new_document w d status ∷ [] },
    )
    else (err "inserting document", w.db)

-- DocumentStore.Create.
unfoldable pub create : NewDocument → Exec World Error Document
unfolding create_with_status
create d = create_with_status d ready

-- DocumentStore.Get.
unfoldable pub get : String → Exec World Error Document
unfolding statement
get id =
    statement "querying document"
      λ w. (row_or "document not found" (find_document id w.db.documents), w.db)

-- ORDER BY created_at.
unfoldable pub documents_by_created_at : List Document → List Document
documents_by_created_at = sort_by (λ x y. leb x.created_at y.created_at)

-- DocumentStore.ListByTopic.
unfoldable pub list_by_topic : String → Exec World Error (List Document)
unfolding statement documents_by_created_at
list_by_topic topic_id =
    statement "listing documents" λ w.
      (ok (documents_by_created_at (select (λ d. d.topic_id == topic_id) w.db.documents)), w.db)

unfoldable pub set_document : NewDocument → ℕ → Document → Document
set_document new now d = record d {
  name = new.name;
  doc_type = new.doc_type;
  metadata = new.metadata;
  url = new.url;
  author = new.author;
  published_at = new.published_at;
  updated_at = now;
}

abbrev updated : Db → String → (Document → Document) → Result Error Document × Db
updated db id f = elim (find_document id db.documents) [
  | none ↦ (err "document not found", db)
  | some d ↦ (ok (f d), record db { documents = update (λ e. e.id == id) f db.documents })
]

-- DocumentStore.Update; of the new columns it leaves the topic and the slug aside.
unfoldable pub update_document : String → NewDocument → Exec World Error Document
unfolding statement set_document
update_document id new =
    statement "updating document" λ w. updated w.db id (set_document new (w.env.now w.tick))

-- DocumentStore.GetMultiple: the map from the asked IDs to the documents that are there.
unfoldable pub get_multiple : List String → Exec World Error (String → Option Document)
unfolding statement
get_multiple [] w = (ok (λ id. none), w)
get_multiple (i ∷ ids) w =
    statement "querying documents"
      (λ v.
        (ok (λ id. if contains (i ∷ ids) id then find_document id v.db.documents else none), v.db))
      w

abbrev deleted : Db → Option Db → Result Error (Unit {0}) × Db
deleted db none = (err "deleting document", db)
deleted db (some db') = (ok tt, db')

-- DocumentStore.Delete.
unfoldable pub delete : String → Exec World Error (Unit {0})
unfolding statement delete_documents
delete id = statement "deleting document" λ w.
    if has_document w.db.documents id
    then deleted w.db (delete_documents (λ d. d.id == id) w.db)
    else (err "document not found", w.db)

-- DocumentStore.TopicIDForDocument.
unfoldable pub topic_id_for_document : String → Exec World Error String
unfolding Chunks.document_topic_id
topic_id_for_document = Chunks.document_topic_id

unfoldable pub set_status : DocumentStatus → ℕ → Document → Document
set_status status now d = record d { status = status; updated_at = now }

-- DocumentStore.UpdateStatus.
unfoldable pub update_status : String → DocumentStatus → Exec World Error (Unit {0})
unfolding statement set_status
update_status id status = statement "updating document status" λ w.
    if has_document w.db.documents id
    then (
      ok tt,
      record w.db {
        documents = update (λ d. d.id == id) (set_status status (w.env.now w.tick)) w.db.documents;
      },
    )
    else (err "document not found", w.db)

abbrev pub content_of : String → DocumentContent → Bool
content_of id c = c.document_id == id

abbrev set_content : List ℕ → String → ℕ → DocumentContent → DocumentContent
set_content raw content_type now c = record c {
  raw_content = raw;
  content_type = content_type;
  updated_at = now;
}

abbrev new_content : String → List ℕ → String → ℕ → DocumentContent
new_content id raw content_type now = record {
  document_id = id;
  raw_content = raw;
  content_type = content_type;
  extracted_text = [];
  updated_at = now;
}

-- DocumentStore.SaveContent: INSERT … ON CONFLICT (document_id) DO UPDATE.
unfoldable pub save_content : String → List ℕ → String → Exec World Error (Unit {0})
unfolding statement
save_content id raw content_type = statement "saving document content" λ w.
    if has_document w.db.documents id
    then (
      ok tt,
      record w.db {
        contents =
            if exists (content_of id) w.db.contents
            then update (content_of id) (set_content raw content_type (w.env.now w.tick))
                w.db.contents
            else w.db.contents ++ new_content id raw content_type (w.env.now w.tick) ∷ [];
      },
    )
    else (err "saving document content", w.db)

-- DocumentStore.GetContent.
unfoldable pub get_content : String → Exec World Error DocumentContent
unfolding statement
get_content id =
    statement "querying document content"
      λ w. (row_or "document content not found" (first (content_of id) w.db.contents), w.db)

abbrev pub set_text : List ℕ → ℕ → DocumentContent → DocumentContent
set_text text now c = record c { extracted_text = text; updated_at = now }

-- DocumentStore.SaveExtractedText.
unfoldable pub save_extracted_text : String → List ℕ → Exec World Error (Unit {0})
unfolding statement
save_extracted_text id text = statement "saving extracted text" λ w.
    if exists (content_of id) w.db.contents
    then (
      ok tt,
      record w.db {
        contents = update (content_of id) (set_text text (w.env.now w.tick)) w.db.contents;
      },
    )
    else (err "document content not found", w.db)
