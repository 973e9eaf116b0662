-- ===== src/Worker/Pipeline/Vectors.antt =====
-- The batch of internal/worker/embedding.go, where every statement succeeds.
use creel.Base.{
  ℕ, String, true, false, List, [], ◌∷◌, ◌++◌, Option, none, some, ◌≡◌, refl, ap, sym, ◌∙◌, subst,
  arith, Bool-cases, inl, inr, length, Memᴰ, exists, first, update, contains, ==_refl, eq_of_==,
  ◌==◌, if◌then◌else◌,
}
use creel.Exec.{ok}
use creel.Store.Accounts.Found.{first-append_none, first-append_other}
use creel.Store.Rows.{Topic, Chunk, Embedding, Metadata, Vector}
use creel.Store.World.{Db}
use creel.Store.Vectors
use creel.Store.Vectors.{stored}
use creel.Worker.Embedding.{Provider, store_items, with_model}
use creel.Worker.Pipeline.Achieves.{Achieves, bind-Achieves, pure-Achieves, statement-Achieves}
use creel.Worker.Pipeline.Statements.{Stage, Nothing}

-- What a call of the provider gave for a text: the entry at its place in the answer.
pub data Paired (text : List ℕ) (v : Vector) : List (List ℕ) → List Vector → Type 0 where
  here : (texts : List (List ℕ)) (vs : List Vector) → Paired text v (text ∷ texts) (v ∷ vs)
  later :
      (t : List ℕ) (texts : List (List ℕ)) (u : Vector) (vs : List Vector)
      → Paired text v texts vs
      → Paired text v (t ∷ texts) (u ∷ vs)

pub record Gave (provider : Provider) (text : List ℕ) (v : Vector) : Type 0 where
  pub texts : List (List ℕ)
  pub answer : List Vector
  pub answered : provider.embed texts ≡ ok answer
  pub paired : Paired text v texts answer

-- A chunk of the table with the ID, and the vector that the provider gave for its text.
pub record IsOf (provider : Provider) (chunks : List Chunk) (id : String) (v : Vector)
    : Type 0 where
  pub chunk : Chunk
  pub in_table : Memᴰ chunk chunks
  pub same_id : chunk.id ≡ id
  pub gave : Gave provider chunk.content v

-- The row of the backend that stands for an ID.
abbrev pub vector_row : String → List Embedding → Option Embedding
vector_row id = first (λ e. e.chunk_id == id)

-- The vector that the backend holds under an ID is one of a kind.
abbrev pub Holds : (String → Vector → Type 0) → String → Db → Type 0
Holds R id db = (e : Embedding) × (vector_row id db.embeddings ≡ some e) × R id e.embedding

-- The vectors of some chunks are stored.
abbrev pub HasVectors : (String → Vector → Type 0) → List String → Db → Type 0
HasVectors R ids db = (s : String) → contains ids s ≡ true → Holds R s db

-- Each chunk with the vector at its place.
abbrev pub All : (String → Vector → Type 0) → List Chunk → List Vector → Type 0
All R (c ∷ cs) (v ∷ vs) = R c.id v × All R cs vs
All R _ _ = Unit {0}

abbrev pub noted : List Chunk → List String → List String
noted [] ids = ids
noted (c ∷ cs) ids = noted cs (c.id ∷ ids)

noted-contains :
    (cs : List Chunk) (ids : List String) (s : String)
    → contains ids s ≡ true
    → contains (noted cs ids) s ≡ true
noted-contains [] ids s h = h
noted-contains (c ∷ cs) ids s h = noted-contains cs (c.id ∷ ids) s (ground arith)

pub noted-Memᴰ :
    (cs : List Chunk) (ids : List String) (c : Chunk)
    → Memᴰ c cs
    → contains (noted cs ids) c.id ≡ true
noted-Memᴰ [] ids c m = elim m [ ]
noted-Memᴰ (d ∷ cs) ids c (Memᴰ.head e) =
    noted-contains cs (d.id ∷ ids) c.id (rw e (ground (arith, ==_refl d.id)))
noted-Memᴰ (d ∷ cs) ids c (Memᴰ.tail m) = noted-Memᴰ cs (d.id ∷ ids) c m

vector_row_other :
    (id s : String) (v : Vector) (m : Metadata) (es : List Embedding)
    → (id == s) ≡ false
    → vector_row s (update (λ e. e.chunk_id == id) (stored id v m) es) ≡ vector_row s es
vector_row_other id s v m [] other = refl
vector_row_other id s v m (e ∷ es) other = elim (Bool-cases (e.chunk_id == id)) [
  | inl h ↦
      let differs : (e.chunk_id == s) ≡ false =
        ap (λ x. x == s) (eq_of_== e.chunk_id id h) ∙ other in
      rw (h, differs) (vector_row_other id s v m es other)
  | inr h ↦
      rw h (ap (λ r. if e.chunk_id == s then some e else r) (vector_row_other id s v m es other))
]

vector_row_self :
    (id : String) (v : Vector) (m : Metadata) (es : List Embedding)
    → exists (λ e. e.chunk_id == id) es ≡ true
    → (e : Embedding) × (vector_row id (update (λ e. e.chunk_id == id) (stored id v m) es) ≡ some e)
      × (e.embedding ≡ v)
vector_row_self id v m [] h = absurd (cc)
vector_row_self id v m (e ∷ es) h = elim (Bool-cases (e.chunk_id == id)) [
  | inl b ↦ (stored id v m e, rw (b, b) refl, refl)
  | inr b ↦ let (d, q, r) = vector_row_self id v m es (rw b at h) in (d, rw (b, b) q, r)
]

vector_row-none :
    (id : String) (es : List Embedding)
    → exists (λ e. e.chunk_id == id) es ≡ false
    → vector_row id es ≡ none
vector_row-none id [] h = refl
vector_row-none id (e ∷ es) h = ground (arith, vector_row-none id es)

-- After a vector was stored, the ID has it, and every other ID what it had.
Holds-store :
    (R : String → Vector → Type 0) (id s : String) (v : Vector) (m : Metadata) (db : Db)
    → R id v
    → ((id == s) ≡ false → Holds R s db)
    → (e : Embedding) × (vector_row s (
          if exists (λ e. e.chunk_id == id) db.embeddings
          then update (λ e. e.chunk_id == id) (stored id v m) db.embeddings
          else db.embeddings ++ record { chunk_id = id; embedding = v; metadata = m } ∷ [])
        ≡ some e)
      × R s e.embedding
Holds-store R id s v m db r before =
    elim (Bool-cases (exists (λ e. e.chunk_id == id) db.embeddings)) [
      | inl old ↦ elim (Bool-cases (id == s)) [
        | inl b ↦
            let (e, q, same) = vector_row_self id v m db.embeddings old in
            rw old (
              subst
                (λ x.
                  (e : Embedding) × (vector_row x
                      (update (λ e. e.chunk_id == id) (stored id v m) db.embeddings)
                    ≡ some e)
                  × R x e.embedding)
                (eq_of_== id s b) (e, q, subst (R id) (sym same) r))
        | inr b ↦
            let (e, q, k) = before b in rw old (e, vector_row_other id s v m db.embeddings b ∙ q, k)
      ]
      | inr new ↦ elim (Bool-cases (id == s)) [
        | inl b ↦ rw new (
            subst
              (λ x.
                (e : Embedding) × (vector_row x
                    (db.embeddings ++ record { chunk_id = id; embedding = v; metadata = m } ∷ [])
                  ≡ some e)
                × R x e.embedding)
              (eq_of_== id s b)
              (
                _,
                first-append_none (λ e. e.chunk_id == id) db.embeddings _
                    (vector_row-none id db.embeddings new) (==_refl id),
                r,
              ))
        | inr b ↦
            let (e, q, k) = before b in
            rw new (e, first-append_other (λ e. e.chunk_id == s) db.embeddings _ b ∙ q, k)
      ]
    ]

module _ (id topic_id : String) (topic : Topic) (raw : List ℕ) (content_type : String)
    (text : List ℕ) (chunks : List Chunk) where
  abbrev Here : Db → Type 0
  Here = Stage id topic_id topic raw content_type text chunks

  store-Achieves :
      (R : String → Vector → Type 0) (chunk_id : String) (v : Vector) (m : Metadata)
      (ids : List String)
      → exists (λ c. c.id == chunk_id) chunks ≡ true
      → R chunk_id v
      → Achieves
          (λ db. Here db × HasVectors R ids db)
          Nothing
          (λ _ db. Here db × HasVectors R (chunk_id ∷ ids) db)
          (Vectors.store chunk_id v m)
  unfolding Vectors.store
  store-Achieves R chunk_id v m ids there r = statement-Achieves _ _ λ w h.
      let found : exists (λ c. c.id == chunk_id) w.db.chunks ≡ true = rw h.0.stored there in
      record {
        value = tt;
        returned = rw found refl;
        fact = tt;
        state = rw found (
          record {
            document = h.0.document;
            topic_row = h.0.topic_row;
            content = h.0.content;
            stored = h.0.stored;
          },
          λ s k. Holds-store R chunk_id s v m w.db r (λ other. h.1 s (ground arith)),
        );
      }

  pub store_batch-Achieves :
      (R : String → Vector → Type 0) (model : String) (cs : List Chunk) (vs : List Vector)
      (ids : List String)
      → length vs ≡ length cs
      → ((c : Chunk) → Memᴰ c cs → exists (λ d. d.id == c.id) chunks ≡ true)
      → All R cs vs
      → Achieves
          (λ db. Here db × HasVectors R ids db)
          Nothing
          (λ _ db. Here db × HasVectors R (noted cs ids) db)
          (Vectors.store_batch (store_items model cs vs))
  unfolding Vectors.store_batch store_items
  store_batch-Achieves R model [] [] ids e there all = pure-Achieves tt tt (λ db h. h)
  store_batch-Achieves R model [] (v ∷ vs) ids e there all = absurd (omega arith)
  store_batch-Achieves R model (c ∷ cs) [] ids e there all = absurd (omega arith)
  store_batch-Achieves R model (c ∷ cs) (v ∷ vs) ids e there all =
      bind-Achieves
        (store-Achieves R c.id v (with_model model c.metadata) ids (there c (Memᴰ.head refl)) all.0)
        λ _ _.
          store_batch-Achieves R model cs vs (c.id ∷ ids) (omega arith)
            (λ d m. there d (Memᴰ.tail m)) all.1
