-- ===== src/Worker/Pipeline/Listed.antt =====
-- The last of the workers, internal/worker/embedding.go, over a database whose statements succeed.
use creel.Base.{
  arith, ℕ, suc, String, Bool, true, false, List, [], ◌∷◌, none, some, ◌≡◌, refl, ap, ◌∙◌, ◌⊎◌, inl,
  inr, Bool-cases, map, length, Memᴰ, select, ==_refl, ◌==◌, is_empty, Memᴰ-exists, Memᴰ-select,
  select-Memᴰ, leb_ℤ, if◌then◌else◌,
}
use creel.Exec.{ok}
use creel.Store.Rows.{Topic, Chunk, ProcessingJob, Vector, ready}
use creel.Store.World.{Db}
use creel.Store.Chunks
use creel.Store.Chunks.{find_document, active_in, by_sequence}
use creel.Worker.Status.Marking.{status_of}
use creel.Worker.Embedding
use creel.Worker.Embedding.{Provider, needs_embedding}
use creel.Worker.Pipeline.Achieves.{
  Achieves, bind-Achieves, before-Achieves, or_fail_document-Achieves,
}
use creel.Worker.Pipeline.Statements.{Stage, Nothing, list_by_document-Achieves}
use creel.Worker.Pipeline.Vectors.{Paired, here, later, IsOf, All}
use creel.Worker.Pipeline.Embedded.{
  At, Settling, Covers, Memᴰ-by_sequence, start, ready-Achieves, embed_chunks-Achieves,
}

-- The provider gives one vector for each text.
abbrev pub Answers : Provider → Type 0
Answers provider =
    (texts : List (List ℕ))
    → (vs : List Vector) × (provider.embed texts ≡ ok vs) × (length vs ≡ length texts)

length-map : (cs : List Chunk) → length (map (λ c. c.content) cs) ≡ length cs
length-map [] = refl
length-map (c ∷ cs) = ap suc (length-map cs)

insert_chunk-Memᴰ :
    (c : Chunk) (ds : List Chunk) (d : Chunk)
    → Memᴰ d (Chunks.insert_chunk c ds)
    → (d ≡ c) ⊎ Memᴰ d ds
insert_chunk-Memᴰ c [] d (Memᴰ.head e) = inl e
insert_chunk-Memᴰ c [] d (Memᴰ.tail m) = elim m [ ]
insert_chunk-Memᴰ c (x ∷ ds) d m = placed (leb_ℤ c.sequence x.sequence) (insert_chunk-Memᴰ c ds d) m
  where
    placed :
        (b : Bool)
        → (Memᴰ d (Chunks.insert_chunk c ds) → (d ≡ c) ⊎ Memᴰ d ds)
        → Memᴰ d (if b then c ∷ x ∷ ds else x ∷ Chunks.insert_chunk c ds)
        → (d ≡ c) ⊎ Memᴰ d (x ∷ ds)
    placed true ih (Memᴰ.head e) = inl e
    placed true ih (Memᴰ.tail n) = inr n
    placed false ih (Memᴰ.head e) = inr (Memᴰ.head e)
    placed false ih (Memᴰ.tail n) = elim (ih n) [ inl e ↦ inl e | inr k ↦ inr (Memᴰ.tail k) ]

by_sequence-Memᴰ : (cs : List Chunk) (c : Chunk) → Memᴰ c (by_sequence cs) → Memᴰ c cs
unfolding by_sequence
by_sequence-Memᴰ [] c m = elim m [ ]
by_sequence-Memᴰ (x ∷ cs) c m = elim (insert_chunk-Memᴰ x (by_sequence cs) c m) [
  | inl e ↦ Memᴰ.head e
  | inr n ↦ Memᴰ.tail (by_sequence-Memᴰ cs c n)
]

abbrev to_embed : String → List Chunk → List Chunk
to_embed id chunks = select needs_embedding (by_sequence (select (active_in id none) chunks))

-- In an answer that fits, each text has the vector at its place.
given-All :
    (R : String → Vector → Type 0) (cs : List Chunk) (vs : List Vector)
    → length vs ≡ length (map (λ c. c.content) cs)
    → ((c : Chunk) (v : Vector)
        → Memᴰ c cs
        → Paired c.content v (map (λ c. c.content) cs) vs
        → R c.id v)
    → All R cs vs
given-All R [] vs e h = tt
given-All R (c ∷ cs) [] e h = tt
given-All R (c ∷ cs) (v ∷ vs) e h = (
  h c v (Memᴰ.head refl) (here _ vs),
  given-All R cs vs (omega arith) (λ d u m p. h d u (Memᴰ.tail m) (later _ _ v vs p)),
)

answer_given :
    (provider : Provider) (chunks cs : List Chunk) (vs : List Vector)
    → ((c : Chunk) → Memᴰ c cs → Memᴰ c chunks)
    → provider.embed (map (λ c. c.content) cs) ≡ ok vs
    → length vs ≡ length (map (λ c. c.content) cs)
    → All (IsOf provider chunks) cs vs
answer_given provider chunks cs vs inside answered fits =
    given-All (IsOf provider chunks) cs vs fits λ c v m p. record {
      chunk = c;
      in_table = inside c m;
      same_id = refl;
      gave = record {
        texts = map (λ c. c.content) cs;
        answer = vs;
        answered = answered;
        paired = p;
      };
    }

module _ (id topic_id : String) (topic : Topic) (raw : List ℕ) (content_type : String)
    (text : List ℕ) where
  to_embed-Covers :
      (R : String → Vector → Type 0) (chunks : List Chunk)
      → Covers R id topic_id topic raw content_type text chunks (to_embed id chunks)
  to_embed-Covers R chunks = record {
    inside = λ c m.
        let listed = (select-Memᴰ needs_embedding _ c m).0 in
        let active = by_sequence-Memᴰ (select (active_in id none) chunks) c listed in
        Memᴰ-exists (λ d. d.id == c.id) chunks c (select-Memᴰ (active_in id none) chunks c active).0
          (==_refl c.id);
    all = λ c m act needs.
        let active = Memᴰ-select (active_in id none) chunks c m act in
        let listed = Memᴰ-by_sequence (select (active_in id none) chunks) c active in
        Memᴰ-exists (λ n. n.id == c.id) (to_embed id chunks) c
          (Memᴰ-select needs_embedding _ c listed needs) (==_refl c.id);
  }

  -- A chunk that needs no embedding, where none does.
  none_left :
      (R : String → Vector → Type 0) (chunks : List Chunk) (db : Db)
      → is_empty (to_embed id chunks) ≡ true
      → Stage id topic_id topic raw content_type text chunks db
      → At R id topic_id topic raw content_type text db × Settling R id chunks [] db
  none_left R chunks db empty st =
      start R id topic_id topic raw content_type text chunks [] db
        (nothing_needed (to_embed id chunks) empty (to_embed-Covers R chunks)) st
        (λ c m. elim m [ ])
    where
      nothing_needed :
          (cs : List Chunk)
          → is_empty cs ≡ true
          → Covers R id topic_id topic raw content_type text chunks cs
          → Covers R id topic_id topic raw content_type text chunks []
      nothing_needed [] e h = h
      nothing_needed (c ∷ cs) e h = cc

  listed-Memᴰ : (chunks : List Chunk) (c : Chunk) → Memᴰ c (to_embed id chunks) → Memᴰ c chunks
  listed-Memᴰ chunks c m =
      let listed = (select-Memᴰ needs_embedding _ c m).0 in
      let active = by_sequence-Memᴰ (select (active_in id none) chunks) c listed in
      (select-Memᴰ (active_in id none) chunks c active).0

  embed_listed :
      (provider : Provider) (chunks cs : List Chunk)
      → Answers provider
      → cs ≡ by_sequence (select (active_in id none) chunks)
      → Achieves
          (Stage id topic_id topic raw content_type text chunks)
          Nothing
          (λ _ db.
            At (IsOf provider chunks) id topic_id topic raw content_type text db
            × Settling (IsOf provider chunks) id chunks [] db
            × (status_of (find_document id db.documents) ≡ some ready))
          (if is_empty (select needs_embedding cs)
            then Embedding.mark_ready id
            else Embedding.embed_chunks provider id (select needs_embedding cs))
  embed_listed provider chunks cs answers same =
      rw same (elim (Bool-cases (is_empty (to_embed id chunks))) [
        | inl b ↦ rw b (
            before-Achieves (λ db h. none_left (IsOf provider chunks) chunks db b h)
              (ready-Achieves (IsOf provider chunks) id topic_id topic raw content_type text chunks
                [] _))
        | inr b ↦
            let (vs, answered, fits) = answers (map (λ c. c.content) (to_embed id chunks)) in
            rw b (
              embed_chunks-Achieves (IsOf provider chunks) id topic_id topic raw content_type text
                provider chunks (to_embed id chunks) vs
                (to_embed-Covers (IsOf provider chunks) chunks) answered
                (fits ∙ length-map (to_embed id chunks))
                (answer_given provider chunks (to_embed id chunks) vs
                  (λ c m. listed-Memᴰ chunks c m) answered fits))
      ])

  pub embedding-Achieves :
      (provider : Provider) (job : ProcessingJob) (chunks : List Chunk)
      → job.document_id ≡ id
      → Answers provider
      → Achieves
          (Stage id topic_id topic raw content_type text chunks)
          Nothing
          (λ _ db.
            At (IsOf provider chunks) id topic_id topic raw content_type text db
            × Settling (IsOf provider chunks) id chunks [] db
            × (status_of (find_document id db.documents) ≡ some ready))
          (Embedding.process provider job)
  unfolding Embedding.process
  embedding-Achieves provider job chunks same answers = rw same (
      bind-Achieves
        (or_fail_document-Achieves _ _ _ _
          (list_by_document-Achieves id topic_id topic raw content_type text chunks))
        λ cs e. embed_listed provider chunks cs answers e)
