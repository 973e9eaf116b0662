-- ===== src/Worker/Pipeline/Statements.antt =====
-- What the statements of the pipeline do, on tables that hold the document, its content and topic.
use creel.Base.{
  ℕ, ℤ, pos, String, Bool, true, List, [], ◌∷◌, ◌++◌, none, some, ◌≡◌, refl, ◌∙◌, ap, inl, inr,
  arith, Bool-cases, first, exists, update, select, ◌==◌, ◌&&◌, ==_refl, exists-append,
  first-update,
}
use mathlib.Core.Option
use creel.Store.Rows.{Topic, Document, DocumentStatus, DocumentContent, Chunk}
use creel.Store.World.{Db}
use creel.Store.Topics
use creel.Store.Grants.{find_topic}
use creel.Store.Documents
use creel.Store.Documents.{set_status, content_of, set_text}
use creel.Store.Chunks
use creel.Store.Chunks.{find_document, topic_of, new_chunk, active_in, by_sequence}
use creel.Store.Jobs
use creel.Store.Jobs.{has_document, claimable, new_job, insert_document_job}
use creel.Worker.Status.Marking.{status_of, set_status-found}
use creel.Worker.Embedding.{needs_embedding}
use creel.Worker.Pipeline.Achieves.{Achieves, statement-Achieves}

-- The tables hold a document of a topic, its content, and some chunks.
pub record Stage (id topic_id : String) (topic : Topic) (raw : List ℕ) (content_type : String)
    (text : List ℕ) (chunks : List Chunk) (db : Db) : Type 0 where
  pub document : topic_of (find_document id db.documents) ≡ some topic_id
  pub topic_row : find_topic topic_id db.topics ≡ some topic
  pub content :
      (c : DocumentContent) × (first (content_of id) db.contents ≡ some c)
      × (c.raw_content ≡ raw)
      × (c.content_type ≡ content_type)
      × (c.extracted_text ≡ text)
  pub stored : db.chunks ≡ chunks

-- A job of a type waits for a document.
abbrev pub queued_for : String → String → Db → Bool
queued_for id job_type db = exists (λ j. claimable job_type j && j.document_id == id) db.jobs

abbrev pub Nothing {ℓ} : {A : Type ℓ} → A → Type 0
Nothing a = Unit {0}

-- What the pipeline gives a chunk, and leaves as it is.
abbrev pub row : Chunk → String × (List ℕ × ℤ)
row c = (c.document_id, (c.content, c.sequence))

pub found-has_document :
    (id : String) (ds : List Document) (t : String)
    → topic_of (find_document id ds) ≡ some t
    → has_document ds id ≡ true
found-has_document id [] t h = cc
found-has_document id (d ∷ ds) t h = elim (Bool-cases (d.id == id)) [
  | inl e ↦ ground arith
  | inr e ↦ ground (arith, found-has_document id ds t)
]

first-exists :
    {A : Type 0} (p : A → Bool) (xs : List A) (x : A) → first p xs ≡ some x → exists p xs ≡ true
first-exists p [] x h = cc
first-exists p (y ∷ xs) x h = elim (Bool-cases (p y)) [
  | inl e ↦ ground arith
  | inr e ↦ ground (arith, first-exists p xs x)
]

pub topic_of-set_status :
    (id : String) (s : DocumentStatus) (now : ℕ) (ds : List Document)
    → topic_of (find_document id (update (λ d. d.id == id) (set_status s now) ds))
      ≡ topic_of (find_document id ds)
unfolding set_status
topic_of-set_status id s now [] = refl
topic_of-set_status id s now (d ∷ ds) = ground (arith, topic_of-set_status id s now ds)

module _ (id topic_id : String) (topic : Topic) (raw : List ℕ) (content_type : String)
    (text : List ℕ) (chunks : List Chunk) where
  abbrev Here : Db → Type 0
  Here = Stage id topic_id topic raw content_type text chunks

  pub update_status-Achieves :
      (s : DocumentStatus)
      → Achieves Here Nothing
          (λ _ db. Here db × (status_of (find_document id db.documents) ≡ some s))
          (Documents.update_status id s)
  unfolding Documents.update_status
  update_status-Achieves s = statement-Achieves _ _ λ w h.
      let there = found-has_document id w.db.documents topic_id h.document in
      record {
        value = tt;
        returned = rw there refl;
        fact = tt;
        state = rw there (
          record {
            document = topic_of-set_status id s (w.env.now w.tick) w.db.documents ∙ h.document;
            topic_row = h.topic_row;
            content = h.content;
            stored = h.stored;
          },
          set_status-found id s (w.env.now w.tick) w.db.documents there,
        );
      }

  pub get_content-Achieves :
      Achieves Here
        (λ c. (c.raw_content ≡ raw) × (c.content_type ≡ content_type) × (c.extracted_text ≡ text))
        (λ _. Here)
        (Documents.get_content id)
  unfolding Documents.get_content
  get_content-Achieves = statement-Achieves _ _ λ w h. record {
    value = h.content.0;
    returned = rw h.content.1 refl;
    fact = (h.content.2, h.content.3, h.content.4);
    state = h;
  }

  pub save_extracted_text-Achieves :
      (t : List ℕ)
      → Achieves Here Nothing
          (λ _. Stage id topic_id topic raw content_type t chunks)
          (Documents.save_extracted_text id t)
  unfolding Documents.save_extracted_text
  save_extracted_text-Achieves t = statement-Achieves _ _ λ w h.
      let there = first-exists (content_of id) w.db.contents _ h.content.1 in
      record {
        value = tt;
        returned = rw there refl;
        fact = tt;
        state = rw there (record {
          document = h.document;
          topic_row = h.topic_row;
          content = (
            set_text t (w.env.now w.tick) h.content.0,
            first-update (content_of id) (set_text t (w.env.now w.tick)) (λ c. refl) w.db.contents
                ∙ ap (Option.map (set_text t (w.env.now w.tick))) h.content.1,
            h.content.2,
            h.content.3,
            refl,
          );
          stored = h.stored;
        });
      }

  pub create_job-Achieves :
      (job_type : String)
      → Achieves Here Nothing
          (λ _ db. Here db × (queued_for id job_type db ≡ true))
          (Jobs.create id job_type)
  unfolding Jobs.create insert_document_job
  create_job-Achieves job_type = statement-Achieves _ _ λ w h.
      let there = found-has_document id w.db.documents topic_id h.document in
      record {
        value = new_job w id job_type [];
        returned = rw there refl;
        fact = tt;
        state = rw there (
          record {
            document = h.document;
            topic_row = h.topic_row;
            content = h.content;
            stored = h.stored;
          },
          exists-append (λ j. claimable job_type j && j.document_id == id) w.db.jobs _
              ∙ ground (arith, ==_refl job_type, ==_refl id),
        );
      }

  pub topic_id_for_document-Achieves :
      Achieves Here (λ t. t ≡ topic_id) (λ _. Here) (Documents.topic_id_for_document id)
  unfolding Documents.topic_id_for_document Chunks.document_topic_id
  topic_id_for_document-Achieves =
      statement-Achieves _ _
        λ w h. record { value = topic_id; returned = rw h.document refl; fact = refl; state = h }

  pub get_topic-Achieves : Achieves Here (λ t. t ≡ topic) (λ _. Here) (Topics.get topic_id)
  unfolding Topics.get
  get_topic-Achieves =
      statement-Achieves _ _
        λ w h. record { value = topic; returned = rw h.topic_row refl; fact = refl; state = h }

  pub create_chunk-Achieves :
      (content : List ℕ) (sequence : ℤ)
      → Achieves Here
          (λ c. (row c ≡ (id, (content, sequence))) × (needs_embedding c ≡ true))
          (λ c. Stage id topic_id topic raw content_type text (chunks ++ c ∷ []))
          (Chunks.create id content sequence [])
  unfolding Chunks.create
  create_chunk-Achieves content sequence = statement-Achieves _ _ λ w h.
      let there = found-has_document id w.db.documents topic_id h.document in
      record {
        value = new_chunk w id content sequence [];
        returned = rw there refl;
        fact = (refl, refl);
        state = rw there (record {
          document = h.document;
          topic_row = h.topic_row;
          content = h.content;
          stored = ap (λ cs. cs ++ new_chunk w id content sequence [] ∷ []) h.stored;
        });
      }

  pub list_by_document-Achieves :
      Achieves Here
        (λ cs. cs ≡ by_sequence (select (active_in id none) chunks))
        (λ _. Here)
        (Chunks.list_by_document id (pos 0) none)
  unfolding Chunks.list_by_document
  list_by_document-Achieves = statement-Achieves _ _ λ w h. record {
    value = by_sequence (select (active_in id none) w.db.chunks);
    returned = refl;
    fact = ap (λ cs. by_sequence (select (active_in id none) cs)) h.stored;
    state = h;
  }
