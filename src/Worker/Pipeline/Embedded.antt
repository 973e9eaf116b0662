-- ===== src/Worker/Pipeline/Embedded.antt =====
-- The embedding worker of internal/worker/embedding.go, where every statement succeeds.
use creel.Base.{
  ℕ, String, Bool, true, false, List, [], ◌∷◌, none, some, ◌≡◌, refl, ap, sym, ◌∙◌, ◌⊎◌, inl, inr,
  arith, Bool-cases, map, length, Memᴰ, exists, update, ==_refl, eq_of_==, ◌==◌, subst, eqb,
  update-Memᴰ, leb_ℤ,
}
use creel.Exec.{ok, or_fail}
use creel.Store.Rows.{Topic, Chunk, Vector, ready}
use creel.Store.World.{Db, Error}
use creel.Store.Chunks
use creel.Store.Chunks.{find_document, active_in, by_sequence, set_embedding}
use creel.Store.Documents
use creel.Worker.Status.Marking.{status_of, set_status-found}
use creel.Worker.Embedding.{Provider, needs_embedding, set_embedding_ids, embed_chunks}
use creel.Worker.Pipeline.Achieves.{
  Achieves, bind-Achieves, before-Achieves, pure-Achieves, or_fail-Achieves,
  or_fail_document-Achieves, statement-Achieves, result-Achieves, guard-Achieves,
}
use creel.Worker.Pipeline.Statements.{Stage, Nothing, row, found-has_document, topic_of-set_status}
use creel.Worker.Pipeline.Vectors.{Holds, All, noted-Memᴰ, store_batch-Achieves}

Memᴰ-insert_chunk :
    (c : Chunk) (ds : List Chunk) (d : Chunk)
    → (d ≡ c) ⊎ Memᴰ d ds
    → Memᴰ d (Chunks.insert_chunk c ds)
Memᴰ-insert_chunk c [] d (inl e) = Memᴰ.head e
Memᴰ-insert_chunk c [] d (inr m) = elim m [ ]
Memᴰ-insert_chunk c (x ∷ ds) d (inl e) = elim (Bool-cases (leb_ℤ c.sequence x.sequence)) [
  | inl b ↦ rw b (Memᴰ.head e)
  | inr b ↦ rw b (Memᴰ.tail (Memᴰ-insert_chunk c ds d (inl e)))
]
Memᴰ-insert_chunk c (x ∷ ds) d (inr (Memᴰ.head e)) =
    elim (Bool-cases (leb_ℤ c.sequence x.sequence)) [
      | inl b ↦ rw b (Memᴰ.tail (Memᴰ.head e))
      | inr b ↦ rw b (Memᴰ.head e)
    ]
Memᴰ-insert_chunk c (x ∷ ds) d (inr (Memᴰ.tail m)) =
    elim (Bool-cases (leb_ℤ c.sequence x.sequence)) [
      | inl b ↦ rw b (Memᴰ.tail (Memᴰ.tail m))
      | inr b ↦ rw b (Memᴰ.tail (Memᴰ-insert_chunk c ds d (inr m)))
    ]

pub Memᴰ-by_sequence : (cs : List Chunk) (c : Chunk) → Memᴰ c cs → Memᴰ c (by_sequence cs)
unfolding by_sequence
Memᴰ-by_sequence [] c m = elim m [ ]
Memᴰ-by_sequence (x ∷ cs) c (Memᴰ.head e) = Memᴰ-insert_chunk x (by_sequence cs) c (inl e)
Memᴰ-by_sequence (x ∷ cs) c (Memᴰ.tail m) =
    Memᴰ-insert_chunk x (by_sequence cs) c (inr (Memᴰ-by_sequence cs c m))

-- Every active chunk of a document is as it was, or has its vector under its own ID.
abbrev pub IsEmbedded : (String → Vector → Type 0) → String → List Chunk → Db → Chunk → Type 0
IsEmbedded R id before db c =
    (Memᴰ c before × (needs_embedding c ≡ false)) ⊎ ((c.embedding_id ≡ some c.id) × Holds R c.id db)

-- The state of the loop that notes the embeddings; `rest` is left to do.
pub record Settling (R : String → Vector → Type 0) (id : String) (before rest : List Chunk)
    (db : Db) : Type 0 where
  pub kept : map row db.chunks ≡ map row before
  pub settled :
      (c : Chunk)
      → Memᴰ c db.chunks
      → active_in id none c ≡ true
      → (exists (λ n. n.id == c.id) rest ≡ true) ⊎ IsEmbedded R id before db c
  pub vectors : (c : Chunk) → Memᴰ c rest → Holds R c.id db

map-row-update :
    (p : Chunk → Bool) (e : String) (cs : List Chunk)
    → map row (update p (set_embedding e) cs) ≡ map row cs
unfolding set_embedding
map-row-update p e [] = refl
map-row-update p e (c ∷ cs) = elim (Bool-cases (p c)) [
  | inl b ↦ rw b (ap (λ rs. row c ∷ rs) (map-row-update p e cs))
  | inr b ↦ rw b (ap (λ rs. row c ∷ rs) (map-row-update p e cs))
]

-- One chunk less is left to do.
Settling-step :
    (R : String → Vector → Type 0) (id : String) (before rest : List Chunk) (c : Chunk) (db : Db)
    → Settling R id before (c ∷ rest) db
    → Settling R id before rest
        (record db { chunks = update (λ d. d.id == c.id) (set_embedding c.id) db.chunks })
unfolding set_embedding
Settling-step R id before rest c db s = record {
  kept = map-row-update _ c.id db.chunks ∙ s.kept;
  settled = λ d m act.
      let (e, n, q) = update-Memᴰ _ (set_embedding c.id) db.chunks d m in
      elim (Bool-cases (e.id == c.id)) [
        | inl b ↦
            let same : e.id ≡ c.id = eq_of_== _ _ b in
            let new : d ≡ set_embedding c.id e = q ∙ rw b refl in
            inr (
              inr (
                ap (λ x. x.embedding_id) new ∙ ap some (sym same ∙ sym (ap (λ x. x.id) new)),
                subst (λ i. Holds R i db) (sym (ap (λ x. x.id) new ∙ same))
                    (s.vectors c (Memᴰ.head refl)),
              ))
        | inr b ↦
            let old : d ≡ e = q ∙ rw b refl in
            elim (s.settled d (rw old n) act) [
              | inl pending ↦
                  inl (ground (arith, ap (λ x. x.id) old, eq_of_== c.id d.id, ==_refl c.id))
              | inr done ↦ inr done
            ]
      ];
  vectors = λ d m. s.vectors d (Memᴰ.tail m);
}

count_fits :
    (us : List Vector) (cs : List Chunk)
    → length us ≡ length cs
    → eqb (length us) (length cs) ≡ true
count_fits us cs h = ground arith

module _ (R : String → Vector → Type 0) (id topic_id : String) (topic : Topic) (raw : List ℕ)
    (content_type : String) (text : List ℕ) where
  abbrev pub At : Db → Type 0
  At db = Stage id topic_id topic raw content_type text db.chunks db

  set_embedding_ids-Achieves :
      (before rest : List Chunk)
      → Achieves
          (λ db. At db × Settling R id before rest db)
          Nothing
          (λ _ db. At db × Settling R id before [] db)
          (set_embedding_ids id rest)
  unfolding set_embedding_ids Chunks.set_embedding_id
  set_embedding_ids-Achieves before [] = pure-Achieves tt tt (λ db h. h)
  set_embedding_ids-Achieves before (c ∷ rest) =
      bind-Achieves {G = Nothing}
        (or_fail_document-Achieves _ _ _ _ (
          statement-Achieves _ _ λ w h. record {
            value = tt;
            returned = refl;
            fact = tt;
            state = (
              record {
                document = h.0.document;
                topic_row = h.0.topic_row;
                content = h.0.content;
                stored = refl;
              },
              Settling-step R id before rest c w.db h.1,
            );
          }))
        λ _ _. set_embedding_ids-Achieves before rest

  -- The last write leaves everything else as it is.
  pub ready-Achieves :
      (before rest : List Chunk) (msg : Error)
      → Achieves
          (λ db. At db × Settling R id before rest db)
          Nothing
          (λ _ db.
            At db
            × Settling R id before rest db
            × (status_of (find_document id db.documents) ≡ some ready))
          (or_fail (Documents.update_status id ready) msg)
  unfolding Documents.update_status
  ready-Achieves before rest msg = or_fail-Achieves _ _ (
      statement-Achieves _ _ λ w h.
        let there = found-has_document id w.db.documents topic_id h.0.document in
        record {
          value = tt;
          returned = rw there refl;
          fact = tt;
          state = rw there (
            record {
              document =
                  topic_of-set_status id ready (w.env.now w.tick) w.db.documents ∙ h.0.document;
              topic_row = h.0.topic_row;
              content = h.0.content;
              stored = refl;
            },
            record { kept = h.1.kept; settled = h.1.settled; vectors = h.1.vectors },
            set_status-found id ready (w.env.now w.tick) w.db.documents there,
          );
        })

  -- What the list of chunks to embed must hold.
  pub record Covers (chunks cs : List Chunk) : Type 0 where
    pub inside : (c : Chunk) → Memᴰ c cs → exists (λ d. d.id == c.id) chunks ≡ true
    pub all :
        (c : Chunk)
        → Memᴰ c chunks
        → active_in id none c ≡ true
        → needs_embedding c ≡ true
        → exists (λ n. n.id == c.id) cs ≡ true

  pub start :
      (chunks cs : List Chunk) (db : Db)
      → Covers chunks cs
      → Stage id topic_id topic raw content_type text chunks db
      → ((c : Chunk) → Memᴰ c cs → Holds R c.id db)
      → At db × Settling R id chunks cs db
  start chunks cs db covers st vs = (
    record {
      document = st.document;
      topic_row = st.topic_row;
      content = st.content;
      stored = refl;
    },
    record {
      kept = ap (map row) st.stored;
      settled = λ c m act.
          let n : Memᴰ c chunks = subst (λ x. Memᴰ c x) st.stored m in
          elim (Bool-cases (needs_embedding c)) [
            | inl b ↦ inl (covers.all c n act b)
            | inr b ↦ inr (inl (n, b))
          ];
      vectors = vs;
    },
  )

  pub embed_chunks-Achieves :
      (provider : Provider) (chunks cs : List Chunk) (vs : List Vector)
      → Covers chunks cs
      → provider.embed (map (λ c. c.content) cs) ≡ ok vs
      → length vs ≡ length cs
      → All R cs vs
      → Achieves
          (Stage id topic_id topic raw content_type text chunks)
          Nothing
          (λ _ db.
            At db
            × Settling R id chunks [] db
            × (status_of (find_document id db.documents) ≡ some ready))
          (embed_chunks provider id cs)
  unfolding embed_chunks
  embed_chunks-Achieves provider chunks cs vs covers answered fits all =
      bind-Achieves (or_fail_document-Achieves _ _ _ _ (result-Achieves vs _ answered)) λ us e.
        bind-Achieves (guard-Achieves _ _ _ _ (count_fits us cs (ap length e ∙ fits))) λ _ _.
          bind-Achieves
            (or_fail_document-Achieves _ _ _ _ (
              before-Achieves (λ db h. (h, λ s k. absurd (cc)))
                (store_batch-Achieves id topic_id topic raw content_type text chunks R
                  provider.model cs us [] (ap length e ∙ fits) covers.inside
                  (subst (All R cs) (sym e) all))))
            λ _ _.
              bind-Achieves
                (before-Achieves
                  (λ db h. start chunks cs db covers h.0 (λ c m. h.1 c.id (noted-Memᴰ cs [] c m)))
                  (set_embedding_ids-Achieves chunks cs))
                λ _ _. ready-Achieves chunks [] "setting document status to ready"
