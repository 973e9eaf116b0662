-- ===== src/Worker/Pipeline/Stages.antt =====
-- The three workers of the pipeline, each from what it finds to what it leaves.
use creel.Base.{
  ℕ, suc, ℤ, pos, String, true, false, List, [], ◌∷◌, ◌++◌, Option, some, ◌≡◌, refl, ap, sym, ◌∙◌,
  map, not, is_empty, subst, Memᴰ,
}
use mathlib.Core.List.{append-nil, append_assoc}
use creel.Exec.{ok}
use creel.Store.Rows.{ChunkingStrategy, Topic, Chunk, ProcessingJob}
use creel.Store.World.{Db}
use creel.Store.Topics
use creel.Store.Jobs
use creel.Worker.Extraction
use creel.Worker.Extraction.{Parsers, extract_text}
use creel.Worker.Chunking
use creel.Worker.Chunking.{Llm, split_by, create_chunks, is_semantic, size_of, overlap_of}
use creel.Worker.Split.{split_text}
use creel.Worker.Embedding.{needs_embedding}
use creel.Worker.Pipeline.Achieves.{
  Achieves, bind-Achieves, before-Achieves, after-Achieves, pure-Achieves, or_fail-Achieves,
  or_fail_document-Achieves, result-Achieves, guard-Achieves,
}
use creel.Worker.Pipeline.Statements.{
  Stage, queued_for, Nothing, row, update_status-Achieves, get_content-Achieves,
  save_extracted_text-Achieves, create_job-Achieves, topic_id_for_document-Achieves,
  get_topic-Achieves, create_chunk-Achieves,
}

module _ (id topic_id : String) (topic : Topic) (raw : List ℕ) (content_type : String) where
  -- Extraction notes the text and leaves a job for the splitting.
  pub extraction-Achieves :
      (ps : Parsers) (job : ProcessingJob) (old text : List ℕ) (chunks : List Chunk)
      → job.document_id ≡ id
      → extract_text ps raw content_type ≡ ok text
      → Achieves
          (Stage id topic_id topic raw content_type old chunks)
          Nothing
          (λ _ db.
            Stage id topic_id topic raw content_type text chunks db
            × (queued_for id "chunking" db ≡ true))
          (Extraction.process ps job)
  unfolding Extraction.process
  extraction-Achieves ps job old text chunks same extracted = rw same (
      bind-Achieves
        (or_fail-Achieves _ _
          (update_status-Achieves id topic_id topic raw content_type old chunks _))
        λ _ _.
          bind-Achieves
            (before-Achieves (λ db h. h.0)
              (or_fail_document-Achieves _ _ _ _
                (get_content-Achieves id topic_id topic raw content_type old chunks)))
            λ c f.
              bind-Achieves
                (or_fail_document-Achieves _ _ _ _ (
                  result-Achieves text (extract_text ps c.raw_content c.content_type)
                    (rw (f.0, f.1) extracted)))
                λ t e.
                  bind-Achieves
                    (or_fail_document-Achieves _ _ _ _ (
                      save_extracted_text-Achieves id topic_id topic raw content_type old chunks t))
                    λ _ _.
                      bind-Achieves
                        (or_fail_document-Achieves _ _ _ _ (
                          create_job-Achieves id topic_id topic raw content_type t chunks
                            "chunking"))
                        λ _ _. pure-Achieves tt tt (λ db h.
                          subst
                            (λ x.
                              Stage id topic_id topic raw content_type x chunks db
                              × (queued_for id "chunking" db ≡ true))
                            e h))

-- The rows that a list of texts makes, numbered from one.
unfoldable pub rows : String → ℕ → List (List ℕ) → List (String × (List ℕ × ℤ))
rows id i [] = []
rows id i (t ∷ ts) = (id, (t, pos (suc i))) ∷ rows id (suc i) ts

first_or_later :
    (c : Chunk) (cs : List Chunk) (d : Chunk)
    → needs_embedding c ≡ true
    → ((x : Chunk) → Memᴰ x cs → needs_embedding x ≡ true)
    → Memᴰ d (c ∷ cs)
    → needs_embedding d ≡ true
first_or_later c cs d h k (Memᴰ.head e) = rw e h
first_or_later c cs d h k (Memᴰ.tail m) = k d m

module _ (id topic_id : String) (topic : Topic) (raw : List ℕ) (content_type : String)
    (text : List ℕ) where
  abbrev Split : List Chunk → Db → Type 0
  Split cs = Stage id topic_id topic raw content_type text cs

  -- Some chunks were added, which stand for the texts.
  abbrev Added : List Chunk → ℕ → List (List ℕ) → Db → Type 0
  Added chunks i texts db =
      (new : List Chunk) × Split (chunks ++ new) db
      × (map row new ≡ rows id i texts)
      × ((c : Chunk) → Memᴰ c new → needs_embedding c ≡ true)

  create_chunks-Achieves :
      (i : ℕ) (texts : List (List ℕ)) (chunks : List Chunk)
      → Achieves (Split chunks) Nothing (λ _. Added chunks i texts) (create_chunks id i texts)
  unfolding create_chunks rows
  create_chunks-Achieves i [] chunks =
      pure-Achieves tt tt (λ db h.
        ([], subst (λ cs. Split cs db) (sym (append-nil chunks)) h, refl, λ c m. elim m [ ]))
  create_chunks-Achieves i (t ∷ ts) chunks =
      bind-Achieves
        (or_fail_document-Achieves _ _ _ _
          (create_chunk-Achieves id topic_id topic raw content_type text chunks t (pos (suc i))))
        λ c f.
          after-Achieves
            (λ u db _ h. (
              c ∷ h.0,
              subst (λ cs. Split cs db) (append_assoc chunks (c ∷ []) h.0) h.1,
              λ k. f.0 k ∷ h.2 k,
              λ d m. first_or_later c h.0 d f.1 h.3 m,
            ))
            (create_chunks-Achieves (suc i) ts (chunks ++ c ∷ []))

  split_by-Achieves :
      {P : Db → Type 0} (llm : Option Llm) (strategy : Option ChunkingStrategy) (t : List ℕ)
      (pieces : List (List ℕ))
      → is_semantic strategy ≡ false
      → split_text t (size_of strategy) (overlap_of strategy) ≡ some pieces
      → Achieves P (λ ps. ps ≡ pieces) (λ _. P) (split_by id llm strategy t)
  unfolding split_by
  split_by-Achieves llm strategy t pieces fixed split =
      rw (fixed, split) (pure-Achieves pieces refl (λ db p. p))

  get_topic_at :
      (chunks : List Chunk) (t : String)
      → t ≡ topic_id
      → Achieves (Split chunks) (λ u. u ≡ topic) (λ _. Split chunks) (Topics.get t)
  get_topic_at chunks t e = rw e (get_topic-Achieves id topic_id topic raw content_type text chunks)

  create_all :
      (ps pieces : List (List ℕ)) (chunks : List Chunk)
      → ps ≡ pieces
      → Achieves (Split chunks) Nothing (λ _. Added chunks 0 pieces) (create_chunks id 0 ps)
  create_all ps pieces chunks q = rw q (create_chunks-Achieves 0 pieces chunks)

  queue_embedding :
      (pieces : List (List ℕ)) (chunks : List Chunk)
      → Achieves
          (Added chunks 0 pieces)
          Nothing
          (λ _ db. Added chunks 0 pieces db × (queued_for id "embedding" db ≡ true))
          (Jobs.create id "embedding")
  queue_embedding pieces chunks = record {
    at = λ w healthy p.
        let create =
          create_job-Achieves id topic_id topic raw content_type text (chunks ++ p.0) "embedding" in
        let d = create.at w healthy p.1 in
        record {
          value = d.value;
          returned = d.returned;
          same_env = d.same_env;
          fact = tt;
          state = ((p.0, d.state.0, p.2, p.3), d.state.1);
        };
  }

  split_at :
      (u : Topic) (t : List ℕ)
      → u ≡ topic
      → t ≡ text
      → split_text t (size_of u.chunking_strategy) (overlap_of u.chunking_strategy)
        ≡ split_text text (size_of topic.chunking_strategy) (overlap_of topic.chunking_strategy)
  split_at u t d e = cc

  -- Splitting stores the pieces of the text and leaves a job for the embedding.
  pub chunking-Achieves :
      (llm : Option Llm) (job : ProcessingJob) (pieces : List (List ℕ)) (chunks : List Chunk)
      → job.document_id ≡ id
      → is_empty text ≡ false
      → is_semantic topic.chunking_strategy ≡ false
      → split_text text (size_of topic.chunking_strategy) (overlap_of topic.chunking_strategy)
        ≡ some pieces
      → Achieves
          (Split chunks)
          Nothing
          (λ _ db. Added chunks 0 pieces db × (queued_for id "embedding" db ≡ true))
          (Chunking.process llm job)
  unfolding Chunking.process
  chunking-Achieves llm job pieces chunks same nonempty fixed split = rw same (
      bind-Achieves
        (or_fail_document-Achieves _ _ _ _
          (get_content-Achieves id topic_id topic raw content_type text chunks))
        λ c f.
          bind-Achieves (guard-Achieves _ _ _ _ (ap (λ t. not (is_empty t)) f.2 ∙ ap not nonempty))
            λ _ _.
              bind-Achieves
                (or_fail_document-Achieves _ _ _ _
                  (topic_id_for_document-Achieves id topic_id topic raw content_type text chunks))
                λ t e.
                  bind-Achieves (or_fail_document-Achieves _ _ _ _ (get_topic_at chunks t e)) λ u d.
                    bind-Achieves
                      (split_by-Achieves llm u.chunking_strategy c.extracted_text pieces
                        (ap (λ v. is_semantic v.chunking_strategy) d ∙ fixed)
                        (split_at u c.extracted_text d f.2 ∙ split))
                      λ ps q. bind-Achieves (create_all ps pieces chunks q) λ _ _.
                        bind-Achieves
                          (or_fail_document-Achieves _ _ _ _ (queue_embedding pieces chunks))
                          λ _ _. pure-Achieves tt tt (λ db h. h))
