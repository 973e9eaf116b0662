-- ===== src/Server/Queries/Returned.antt =====
-- What the reading calls of internal/server return, by the tables and the permissions of before.
use creel.Base.{String, Bool, true, false, Option, some, ◌≡◌, ◌⊎◌, ◌==◌}
use creel.Store.Rows.{Principal, Action, Document, Chunk, ProcessingJob, Json}
use creel.Store.Grants.{find_topic}
use creel.Store.Jobs.{find_job}
use creel.Store.Chunks.{find_document, find_chunk, topic_of}
use creel.Store.Reads.Lists.{Chosen, is_listed}
use creel.Server.Guarded.{CallerAllowed}
use creel.Server.Guarded.Returning.{Returns, returning_rules}
use creel.Server.Topic.{get_topic, list_grants}
use creel.Server.Document.{get_document, list_documents}
use creel.Server.Chunk.{get_chunk}
use creel.Server.Link.{list_links}
use creel.Server.Compaction.{get_compaction_history}
use creel.Server.Job.{string_at, get_job}

module _ (p : Option Principal) (id : String) where
  pub get_topic-Returns :
      Returns
        (λ t db. CallerAllowed p id Action.read db × (find_topic id db.topics ≡ some t))
        (get_topic p id)
  unfolding get_topic
  get_topic-Returns = search returning_rules depth 12

  pub list_grants-Returns :
      Returns
        (λ gs db. CallerAllowed p id Action.read db × Chosen (λ g. g.topic_id == id) db.grants gs)
        (list_grants p id)
  unfolding list_grants
  list_grants-Returns = search returning_rules depth 12

  pub get_document-Returns :
      Returns
        (λ r db.
          (d : Document) × (find_document id db.documents ≡ some d)
          × (CallerAllowed p d.topic_id Action.read db × (r ≡ d)))
        (get_document p id)
  unfolding get_document
  get_document-Returns = search returning_rules depth 12

  pub list_documents-Returns :
      Returns
        (λ ds db.
          CallerAllowed p id Action.read db × Chosen (λ d. d.topic_id == id) db.documents ds)
        (list_documents p id)
  unfolding list_documents
  list_documents-Returns = search returning_rules depth 12

  pub get_chunk-Returns :
      Returns {A = Chunk × Option Json}
        (λ r db.
          (c : Chunk) × (find_chunk id db.chunks ≡ some c)
          × ((t : String) × (topic_of (find_document c.document_id db.documents) ≡ some t)
              × (CallerAllowed p t Action.read db × (r.0 ≡ c))))
        (get_chunk p id)
  unfolding get_chunk
  get_chunk-Returns = search returning_rules depth 12

  pub list_links-Returns :
      (back : Bool)
      → Returns
          (λ ls db.
            (c : Chunk) × (find_chunk id db.chunks ≡ some c)
            × ((t : String) × (topic_of (find_document c.document_id db.documents) ≡ some t)
                × (CallerAllowed p t Action.read db × Chosen (is_listed id back) db.links ls)))
          (list_links p id back)
  unfolding list_links
  list_links-Returns back = search returning_rules depth 12

  pub get_compaction_history-Returns :
      Returns
        (λ rs db.
          (t : String) × (topic_of (find_document id db.documents) ≡ some t)
          × (CallerAllowed p t Action.read db
              × Chosen (λ r. r.document_id == id) db.compactions rs))
        (get_compaction_history p id)
  unfolding get_compaction_history
  get_compaction_history-Returns = search returning_rules depth 12

  pub get_job-Returns :
      Returns
        (λ r db.
          (j : ProcessingJob) × (find_job id db.jobs ≡ some j)
          × (((j.document_id == "") ≡ true)
                × (((q : Principal) × (p ≡ some q) × (string_at "principal" j.progress ≡ q.id))
                    × (r ≡ j))
              ⊎ ((j.document_id == "") ≡ false)
                × ((t : String) × (topic_of (find_document j.document_id db.documents) ≡ some t)
                    × (CallerAllowed p t Action.read db × (r ≡ j)))))
        (get_job p id)
  unfolding get_job
  get_job-Returns = search returning_rules depth 12
