-- ===== src/Retrieval/Search/Readable.antt =====
-- What internal/retrieval/search.go returns: chunks that the caller may read, and only those.
use creel.Base.{
  ℤ, String, Bool, true, false, List, [], Option, none, some, ◌≡◌, refl, ◌∙◌, arith, is_empty, map,
  select, contains, Memᴰ, Distinct, found-key, subst, if◌then◌else◌,
}
use creel.Exec.{Exec, ok, pure}
use creel.Store.Rows.{Principal, Action, Chunk, Document, Metadata, Vector}
use creel.Store.World.{World, Db, Error}
use creel.Store.Schema.{IsConsistent}
use creel.Store.Chunks.{find_chunk, find_document, topic_of, is_active}
use creel.Store.Vectors.Similar.{Similarity, SearchResult}
use creel.Auth.Authorizer.Decision.{Allowed}
use creel.Auth.Authorizer.Access.{db-accessible_topics}
use creel.Store.Reads.{Reads, after_reading_or_fail, after_reading}
use creel.Retrieval.Search.Filtering.{in_request, contains-intersect, exists-key}
use creel.Retrieval.Search.Statements.{
  searched, accessible_topics-Reads, chunk_ids_by_topics-Reads, search_embeddings-Reads,
  chunks-Reads, topics-Reads, documents-Reads,
}
use creel.Retrieval.Search.Assembly.{assemble-Assembled}
use creel.Retrieval.Search.{SearchHit, intersect, resolve_topics, assemble, fetch_hits, search}

-- The primary keys of the two tables.
pub record HasKeys (db : Db) : Type 0 where
  pub chunks_key : Distinct (map (λ c. c.id) db.chunks)
  pub documents_key : Distinct (map (λ d. d.id) db.documents)

-- A result is an active chunk of a document that is not excluded, in a topic that was asked for and
-- on which the caller may read.
pub record Readable (db : Db) (p : Principal) (topic_ids excluded : List String) (h : SearchHit)
    : Type 0 where
  pub stored : Memᴰ h.chunk db.chunks
  pub active : is_active h.chunk.status ≡ true
  pub included : contains excluded h.chunk.document_id ≡ false
  pub topic : topic_of (find_document h.chunk.document_id db.documents) ≡ some h.topic_id
  pub citation :
      (d : Document) → h.document ≡ some d → find_document h.chunk.document_id db.documents ≡ some d
  pub requested : in_request topic_ids h.topic_id ≡ true
  pub allowed : Allowed db p h.topic_id Action.read

module _ (db : Db) (p : Principal) (topic_ids excluded ts : List String) (keys : HasKeys db) where
  -- The chunk that a lookup finds passed the test of the search.
  found_searched :
      (id : String) (c : Chunk)
      → contains (map (λ x. x.id) (select (searched db ts excluded) db.chunks)) id ≡ true
      → find_chunk id db.chunks ≡ some c
      → Memᴰ c db.chunks × (searched db ts excluded c ≡ true)
  found_searched id c h e =
      found-key (λ y. y.id) (searched db ts excluded) db.chunks id c keys.chunks_key
        (exists-key (λ y. y.id) (searched db ts excluded) db.chunks id h) e

  searched-document :
      (c : Chunk) (t : String) (o : Option Document)
      → searched db ts excluded c ≡ true
      → find_document c.document_id db.documents ≡ o
      → topic_of o ≡ some t
      → contains ts t ≡ true
  searched-document c t none h e f = cc
  searched-document c t (some d) h e f =
      let (m, q) =
        found-key (λ y. y.id) (λ y. contains ts y.topic_id) db.documents c.document_id d
          keys.documents_key (ground arith) e in
      let same : d.topic_id ≡ t = cc in subst (λ x. contains ts x ≡ true) same q

  -- The topic of a chunk that passed it is among the searched ones.
  searched-topic :
      (c : Chunk) (t : String)
      → searched db ts excluded c ≡ true
      → topic_of (find_document c.document_id db.documents) ≡ some t
      → contains ts t ≡ true
  searched-topic c t h e = searched-document c t (find_document c.document_id db.documents) h refl e

  Readable-assemble :
      (ids : List String) (found : List SearchResult) (chunks : String → Option Chunk)
      (topics : String → Option String) (docs : String → Option Document) (h : SearchHit)
      → ids ≡ map (λ x. x.id) (select (searched db ts excluded) db.chunks)
      → ((r : SearchResult) → Memᴰ r found → contains ids r.chunk_id ≡ true)
      → ((id : String) (c : Chunk) → chunks id ≡ some c → find_chunk id db.chunks ≡ some c)
      → ((id t : String) → topics id ≡ some t → topic_of (find_document id db.documents) ≡ some t)
      → ((id : String) (d : Document) → docs id ≡ some d → find_document id db.documents ≡ some d)
      → ((t : String)
          → contains ts t ≡ true
          → (in_request topic_ids t ≡ true) × Allowed db p t Action.read)
      → Memᴰ h (assemble chunks topics docs found)
      → Readable db p topic_ids excluded h
  Readable-assemble ids found chunks topics docs h e among of_chunk of_topic of_document allowed m =
      let a = assemble-Assembled chunks topics docs found h m in
      let (s, q) =
        found_searched a.origin.chunk_id h.chunk
          (subst (λ x. contains x a.origin.chunk_id ≡ true) e (among a.origin a.among))
          (of_chunk a.origin.chunk_id h.chunk a.of_chunk) in
      let t = of_topic h.chunk.document_id h.topic_id a.of_topic in
      let (r, l) = allowed h.topic_id (searched-topic h.chunk h.topic_id q t) in
      record {
        stored = s;
        active = ground arith;
        included = ground arith;
        topic = t;
        citation = λ d x. of_document h.chunk.document_id d (a.of_document ∙ x);
        requested = r;
        allowed = l;
      }

  fetch_hits-Readable :
      (ids : List String) (found : List SearchResult) (v : World) (hits : List SearchHit)
      (h : SearchHit)
      → v.db ≡ db
      → ids ≡ map (λ x. x.id) (select (searched db ts excluded) db.chunks)
      → ((r : SearchResult) → Memᴰ r found → contains ids r.chunk_id ≡ true)
      → ((t : String)
          → contains ts t ≡ true
          → (in_request topic_ids t ≡ true) × Allowed db p t Action.read)
      → (fetch_hits found v).0 ≡ ok hits
      → Memᴰ h hits
      → Readable db p topic_ids excluded h
  unfolding fetch_hits
  fetch_hits-Readable ids found v hits h same e among allowed x m =
      let (chunks, f, v1, s1, x1) = after_reading_or_fail db _ _ _ v hits (chunks-Reads _) same x in
      let (topics, g, v2, s2, x2) = after_reading_or_fail db _ _ _ v1 hits (topics-Reads _) s1 x1 in
      let (docs, k, v3, s3, x3) =
        after_reading_or_fail db _ _ _ v2 hits (documents-Reads _) s2 x2 in
      Readable-assemble ids found chunks topics docs h e among f g k allowed
        (subst (Memᴰ h) (ground arith) m)

resolve_topics-Reads :
    (p : Principal) (topic_ids : List String)
    → Reads
        (λ ts db.
          IsConsistent db
          → (t : String) → contains ts t ≡ true
          → (in_request topic_ids t ≡ true) × Allowed db p t Action.read)
        (resolve_topics p topic_ids)
unfolding resolve_topics
resolve_topics-Reads p topic_ids = record {
  keeps = λ w. ground (arith, db-accessible_topics p Action.read w);
  gives = λ w ts h key t c.
      let (all, f, v, s, x) =
        after_reading_or_fail w.db _ _ _ w ts (accessible_topics-Reads p Action.read) refl h in
      let same : ts ≡ intersect topic_ids all = ground arith in
      let i = contains-intersect topic_ids all t (subst (λ y. contains y t ≡ true) same c) in
      (ground arith, f key t (ground arith));
}

-- A result came from the branch that does not return early.
not_early :
    (b : Bool) (m : Exec World Error (List SearchHit)) (v : World) (hits : List SearchHit)
    (h : SearchHit)
    → ((if b then pure [] else m) v).0 ≡ ok hits
    → Memᴰ h hits
    → (b ≡ false) × ((m v).0 ≡ ok hits)
not_early true m v hits h x i = let i' : Memᴰ h [] = subst (Memᴰ h) (ground arith) i in elim i' [ ]
not_early false m v hits h x i = (refl, x)

-- Whatever the backend ranks first and whatever statements fail, each result of a search is an active
-- chunk of a document that is not excluded, in a topic on which the caller may read and that was
-- requested if any was; the topic and the document that come with it are the chunk's own. It needs
-- tables with distinct IDs of topics, documents and chunks, and grants that refer to topics.
pub search-Readable :
    (sim : Similarity) (p : Principal) (topic_ids : List String) (query : Vector) (top_k : ℤ)
    (metadata : Metadata) (excluded : List String) (w : World) (hits : List SearchHit)
    (h : SearchHit)
    → IsConsistent w.db
    → HasKeys w.db
    → (search sim p topic_ids query top_k metadata excluded w).0 ≡ ok hits
    → Memᴰ h hits
    → Readable w.db p topic_ids excluded h
unfolding search
search-Readable sim p topic_ids query top_k metadata excluded w hits h key keys x m =
    let (ts, allowed, v, s, x1) =
      after_reading w.db (resolve_topics p topic_ids) _ w hits (resolve_topics-Reads p topic_ids)
        refl x in
    let (n1, y1) = not_early (is_empty ts) _ v hits h x1 m in
    let (ids, e, v2, s2, x2) =
      after_reading_or_fail w.db _ _ _ v hits (chunk_ids_by_topics-Reads ts excluded) s y1 in
    let (n2, y2) = not_early (is_empty ids) _ v2 hits h x2 m in
    let (found, among, v3, s3, x3) =
      after_reading_or_fail w.db _ _ _ v2 hits
        (search_embeddings-Reads sim query (record { chunk_ids = ids; metadata = metadata }) top_k
          n2)
        s2 y2 in
    let (n3, y3) = not_early (is_empty found) _ v3 hits h x3 m in
    fetch_hits-Readable w.db p topic_ids excluded ts keys ids found v3 hits h s3 e among
      (allowed key) y3 m
