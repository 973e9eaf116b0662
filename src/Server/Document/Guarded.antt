-- ===== src/Server/Document/Guarded.antt =====
-- Who may create, change and delete documents, in internal/server/document.go.
use creel.Base.{String, Option}
use creel.Store.Rows.{Principal, Action}
use creel.Server.Guarded.{WritesOnlyIf, CallerAllowed, guarded_rules}
use creel.Server.Guarded.Reading.{DocumentAllowed, reading_rules}
use creel.Server.Document.{
  DocumentRequest, UploadRequest, Fetcher, create_document, update_document, delete_document,
  upload_document,
}

ruleset document_rules = (guarded_rules, reading_rules)

pub create_document-WritesOnlyIf :
    (generated : String) (p : Option Principal) (req : DocumentRequest)
    → WritesOnlyIf (CallerAllowed p req.topic_id Action.write) (create_document generated p req)
unfolding create_document
create_document-WritesOnlyIf generated p req = search document_rules

pub update_document-WritesOnlyIf :
    (p : Option Principal) (req : DocumentRequest)
    → WritesOnlyIf (DocumentAllowed p req.id Action.write) (update_document p req)
unfolding update_document
update_document-WritesOnlyIf p req = search document_rules

pub delete_document-WritesOnlyIf :
    (p : Option Principal) (id : String)
    → WritesOnlyIf (DocumentAllowed p id Action.admin) (delete_document p id)
unfolding delete_document
delete_document-WritesOnlyIf p id = search document_rules

pub upload_document-WritesOnlyIf :
    (fetcher : Fetcher) (generated : String) (p : Option Principal) (req : UploadRequest)
    → WritesOnlyIf
        (CallerAllowed p req.document.topic_id Action.write)
        (upload_document fetcher generated p req)
unfolding upload_document
upload_document-WritesOnlyIf fetcher generated p req = search document_rules
