-- ===== src/Server/Queries/Readable.antt =====
-- Whoever gets an answer of a reading call of internal/server may read its rows.
use creel.Base.{
  sym, subst, Bool-cases, eq_of_==, first-passes, first-Memᴰ, String, Bool, true, false, List, [],
  ◌∷◌, map, map-Memᴰ, Memᴰ, Option, some, ◌≡◌, ◌⊎◌, inl, inr, arith, ◌==◌,
}
use creel.Exec.{Result, Result-cases}
use creel.Store.Rows.{Principal, Action, Link}
use creel.Store.World.{World, Db}
use creel.Store.Grants.{find_topic}
use creel.Store.Jobs.{find_job}
use creel.Store.Chunks.{find_chunk}
use creel.Store.Reads.Lists.{is_listed}
use creel.Server.Status.{Code}
use creel.Server.Guarded.{CallerAllowed}
use creel.Server.Guarded.Reading.{DocumentAllowed, ChunkAllowed}
use creel.Server.Guarded.Returning.{Returns}
use creel.Server.Topic.{get_topic, list_grants}
use creel.Server.Document.{get_document, list_documents}
use creel.Server.Chunk.{get_chunk}
use creel.Server.Link.{list_links}
use creel.Server.Compaction.{get_compaction_history}
use creel.Server.Job.{get_job}
use creel.Server.Queries.{
  Query, of_topic, of_grants, of_document, of_documents, of_chunk, of_links, of_compactions, of_job,
  Row, topic_row, grant_row, document_row, chunk_row, link_row, compaction_row, job_row, answer_of,
  answers, MayRead,
}
use creel.Server.Queries.Returned.{
  get_topic-Returns, list_grants-Returns, get_document-Returns, list_documents-Returns,
  get_chunk-Returns, list_links-Returns, get_compaction_history-Returns, get_job-Returns,
}

module _ (p : Option Principal) (id : String) where
  answer-MayRead :
      {A : Type 0} (f : A → List Row) (m : World → Result Code A × World) (w : World)
      {P : A → Db → Type 0}
      → Returns P m
      → ((a : A) → P a w.db → (r : Row) → Memᴰ r (f a) → MayRead p r w.db)
      → (r : Row) → Memᴰ r (answer_of f (m w).0)
      → MayRead p r w.db
  answer-MayRead f m w h k r n = elim (Result-cases (m w).0) [
    | inl (a, e) ↦ k a (h.at w a e) r (rw e at n)
    | inr (x, e) ↦ elim (rw e at n) [ ]
  ]

  one-MayRead : (a r : Row) (db : Db) → MayRead p a db → Memᴰ r (a ∷ []) → MayRead p r db
  one-MayRead a r db h (Memᴰ.head e) = subst (λ x. MayRead p x db) (sym e) h
  one-MayRead a r db h (Memᴰ.tail m) = elim m [ ]

  rows-MayRead :
      {A : Type 0} (f : A → Row) (as' : List A) (r : Row) (db : Db)
      → ((a : A) → Memᴰ a as' → MayRead p (f a) db)
      → Memᴰ r (map f as')
      → MayRead p r db
  rows-MayRead f as' r db h m =
      let (a, n, e) = map-Memᴰ f as' r m in subst (λ x. MayRead p x db) (sym e) (h a n)

  -- The end of a link that was asked for is one of its two chunks.
  link-MayRead :
      (back : Bool) (l : Link) (db : Db)
      → is_listed id back l ≡ true
      → ChunkAllowed p id Action.read db
      → ChunkAllowed p l.source_chunk_id Action.read db
        ⊎ ChunkAllowed p l.target_chunk_id Action.read db
  link-MayRead back l db t c = elim (Bool-cases (l.source_chunk_id == id)) [
    | inl b ↦ inl (subst (λ i. ChunkAllowed p i Action.read db) (sym (eq_of_== _ _ b)) c)
    | inr b ↦
        let target : (l.target_chunk_id == id) ≡ true = is_target back l b t in
        inr (subst (λ i. ChunkAllowed p i Action.read db) (sym (eq_of_== _ _ target)) c)
  ]
    where
      is_target :
          (back : Bool) (l : Link)
          → (l.source_chunk_id == id) ≡ false
          → is_listed id back l ≡ true
          → (l.target_chunk_id == id) ≡ true
      is_target true l b t = ground arith
      is_target false l b t = absurd (ground arith)

  query_topic : (w : World) (r : Row) → Memᴰ r (answers p (of_topic id) w) → MayRead p r w.db
  unfolding answers
  query_topic w = answer-MayRead _ (get_topic p id) w (get_topic-Returns p id) λ t h r.
      one-MayRead (topic_row t) r w.db (
        subst (λ i. (find_topic i w.db.topics ≡ some t) × CallerAllowed p i Action.read w.db)
          (sym (eq_of_== t.id id (first-passes (λ t. t.id == id) w.db.topics t h.1))) (h.1, h.0))

  query_grants : (w : World) (r : Row) → Memᴰ r (answers p (of_grants id) w) → MayRead p r w.db
  unfolding answers
  query_grants w = answer-MayRead _ (list_grants p id) w (list_grants-Returns p id) λ gs h r.
      rows-MayRead grant_row gs r w.db λ g m.
        let (n, b) = h.1 g m in
        (n, subst (λ i. CallerAllowed p i Action.read w.db) (sym (eq_of_== g.topic_id id b)) h.0)

  query_document : (w : World) (r : Row) → Memᴰ r (answers p (of_document id) w) → MayRead p r w.db
  unfolding answers
  query_document w = answer-MayRead _ (get_document p id) w (get_document-Returns p id) λ d h r.
      let (e, f, (c, same)) = h in
      one-MayRead (document_row d) r w.db (
        subst (λ x. MayRead p (document_row x) w.db) (sym same)
          (first-Memᴰ (λ x. x.id == id) w.db.documents e f, c))

  query_documents :
      (w : World) (r : Row) → Memᴰ r (answers p (of_documents id) w) → MayRead p r w.db
  unfolding answers
  query_documents w =
      answer-MayRead _ (list_documents p id) w (list_documents-Returns p id) λ ds h r.
        rows-MayRead document_row ds r w.db λ d m.
          let (n, b) = h.1 d m in
          (n, subst (λ i. CallerAllowed p i Action.read w.db) (sym (eq_of_== d.topic_id id b)) h.0)

  query_chunk : (w : World) (r : Row) → Memᴰ r (answers p (of_chunk id) w) → MayRead p r w.db
  unfolding answers
  query_chunk w = answer-MayRead _ (get_chunk p id) w (get_chunk-Returns p id) λ a h r.
      let (c, f, (t, g, (k, same))) = h in
      one-MayRead (chunk_row a.0) r w.db (
        subst (λ x. MayRead p (chunk_row x) w.db) (sym same)
          (
            subst (λ i. find_chunk i w.db.chunks ≡ some c)
                (sym (eq_of_== c.id id (first-passes (λ x. x.id == id) w.db.chunks c f))) f,
            (t, g, k),
          ))

  query_links :
      (back : Bool) (w : World) (r : Row)
      → Memᴰ r (answers p (of_links id back) w)
      → MayRead p r w.db
  unfolding answers
  query_links back w =
      answer-MayRead _ (list_links p id back) w (list_links-Returns p id back) λ ls h r.
        let (c, f, (t, g, (k, listed))) = h in
        rows-MayRead link_row ls r w.db
          λ l m. let (n, b) = listed l m in (n, link-MayRead back l w.db b (c, f, (t, g, k)))

  query_compactions :
      (w : World) (r : Row) → Memᴰ r (answers p (of_compactions id) w) → MayRead p r w.db
  unfolding answers
  query_compactions w =
      answer-MayRead _ (get_compaction_history p id) w (get_compaction_history-Returns p id)
        λ rs h r.
          let (t, g, (k, listed)) = h in
          rows-MayRead compaction_row rs r w.db λ x m.
            let (n, b) = listed x m in
            (
              n,
              subst (λ i. DocumentAllowed p i Action.read w.db) (sym (eq_of_== x.document_id id b))
                  (t, g, k),
            )

  query_job : (w : World) (r : Row) → Memᴰ r (answers p (of_job id) w) → MayRead p r w.db
  unfolding answers
  query_job w = answer-MayRead _ (get_job p id) w (get_job-Returns p id) λ a h r.
      let (j, f, cases) = h in
      let found : find_job j.id w.db.jobs ≡ some j =
        subst (λ i. find_job i w.db.jobs ≡ some j)
          (sym (eq_of_== j.id id (first-passes (λ x. x.id == id) w.db.jobs j f))) f in
      one-MayRead (job_row a) r w.db (elim cases [
        | inl (b, (owner, same)) ↦
            subst (λ x. MayRead p (job_row x) w.db) (sym same)
              (found, inl (eq_of_== j.document_id "" b, owner))
        | inr (b, (t, g, (k, same))) ↦
            subst (λ x. MayRead p (job_row x) w.db) (sym same) (found, inr (t, g, k))
      ])

-- Whatever statements fail, every row that GetTopic, ListGrants, GetDocument, ListDocuments, GetChunk,
-- ListLinks, GetCompactionHistory or GetJob returns stands in its table, and the caller is known and may
-- read the topic to which the row belongs: a topic itself, a grant's, a document's, that of the document
-- of a chunk, of a compaction record or of a job, and that of one of the two chunks of a link. A job
-- without a document is returned only to the principal in its progress.
pub answers-MayRead :
    (p : Option Principal) (q : Query) (w : World) (r : Row)
    → Memᴰ r (answers p q w)
    → MayRead p r w.db
answers-MayRead p (of_topic id) w = query_topic p id w
answers-MayRead p (of_grants id) w = query_grants p id w
answers-MayRead p (of_document id) w = query_document p id w
answers-MayRead p (of_documents id) w = query_documents p id w
answers-MayRead p (of_chunk id) w = query_chunk p id w
answers-MayRead p (of_links id back) w = query_links p id back w
answers-MayRead p (of_compactions id) w = query_compactions p id w
answers-MayRead p (of_job id) w = query_job p id w
