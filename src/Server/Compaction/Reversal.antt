-- ===== src/Server/Compaction/Reversal.antt =====
-- `Uncompact` after `Compact`, in internal/server/compaction.go: what is left of the chunks.
use creel.Base.{
  ℕ, String, Bool, true, false, List, [], ◌∷◌, ◌++◌, Option, none, ◌≡◌, refl, sym, ◌∙◌, arith, not,
  ◌||◌, ◌==◌, ==_refl, eq_of_==, first-passes, select, exists, update, contains, ap, subst,
}
use creel.Exec.{ok, ◌>>=◌, ◌>>◌, pure}
use creel.Store.Rows.{Principal, Chunk, ChunkStatus, Vector}
use creel.Store.World.{World}
use creel.Store.Chunks.{find_chunk, set_embedding, mark, unmark, to_compact, compacted_into}
use creel.Server.Status.{or_internal}
use creel.Store.Chunks
use creel.Store.Compactions
use creel.Server.Compaction.{CompactRequest, compact, uncompact}
use creel.Server.Compaction.Moves.{
  pass_over, pass_over_then, step-Moves, value-Moves, or_fail-Moves, guard-Moves, Moves, Same,
  pure-Moves,
}
use creel.Server.Compaction.Effects.{
  authenticate-Moves, check-Moves, topic-Moves, next_sequence-Moves, create-Moves,
  delete_vector-Moves, delete_batch-Moves, transfer_all-Moves, mark_compacted-Moves, record-Moves,
  get-Moves, enqueue-Moves, embedded, embed_summary-Moves, summary_record-Moves,
  delete_record-Moves, restore_compacted-Moves, delete-Moves, get_multiple-Moves,
}

-- A chunk that went through both: active, and without an embedding.
abbrev pub restored : Chunk → Chunk
restored c = record c { status = ChunkStatus.active; compacted_by = none; embedding_id = none }

-- The table that `Compact` leaves: the summary last, the named active chunks compacted into it.
abbrev compacted_table : CompactRequest → Chunk → List Chunk → List Chunk
compacted_table req s cs =
    update (to_compact req.chunk_ids) (mark s.id)
      (update (λ c. c.id == s.id) (embedded req.summary_embedding s.id) (cs ++ s ∷ []))

abbrev uncompacted_table : String → List Chunk → List Chunk
uncompacted_table id cs = select (λ c. not (c.id == id)) (update (compacted_into id) unmark cs)

-- No chunk has the ID, nor is compacted into it.
abbrev pub is_unused : String → List Chunk → Bool
is_unused id cs = not (exists (λ c. c.id == id || compacted_into id c) cs)

embedded-keeps :
    (v : Vector) (id : String) (c : Chunk)
    → ((embedded v id c).id ≡ c.id) × ((embedded v id c).compacted_by ≡ c.compacted_by)
unfolding set_embedding
embedded-keeps [] id c = (refl, refl)
embedded-keeps (x ∷ v) id c = (refl, refl)

uncompacted-compacted :
    (req : CompactRequest) (s : Chunk) (cs : List Chunk)
    → s.compacted_by ≡ none
    → contains req.chunk_ids s.id ≡ false
    → is_unused s.id cs ≡ true
    → uncompacted_table s.id (compacted_table req s cs)
      ≡ update (to_compact req.chunk_ids) restored cs
unfolding mark unmark
uncompacted-compacted req s [] n f u =
    let (i, b) = embedded-keeps req.summary_embedding s.id s in ground (arith, ==_refl s.id)
uncompacted-compacted req s (c ∷ cs) n f u =
    ground (arith, ==_refl s.id, uncompacted-compacted req s cs n f)

module _ (req : CompactRequest) where
  -- What the parts of `Compact` from the creation of the summary, its embedding and the marking on
  -- make of the chunks.
  abbrev Marks : Chunk → List Chunk → Chunk × ℕ → List Chunk → Type 0
  Marks s cs r ds = (s.id ≡ r.0.id) × (ds ≡ update (to_compact req.chunk_ids) (mark s.id) cs)

  abbrev Embeds : Chunk → List Chunk → Chunk × ℕ → List Chunk → Type 0
  Embeds s cs r ds =
      (s.id ≡ r.0.id)
      × (ds
          ≡ update (to_compact req.chunk_ids) (mark s.id)
              (update (λ c. c.id == s.id) (embedded req.summary_embedding s.id) cs))

  abbrev Compacts : List Chunk → Chunk × ℕ → List Chunk → Type 0
  Compacts cs r ds =
      (s : Chunk) × (s.id ≡ r.0.id) × (s.compacted_by ≡ none) × (ds ≡ compacted_table req s cs)

  final-Moves :
      (s : Chunk) (n : ℕ)
      → Moves
          (λ cs (r : Chunk × ℕ) ds. (s.id ≡ r.0.id) × (ds ≡ cs))
          (or_internal (Chunks.get s.id) >>= λ c. pure (c, n))
  final-Moves s n =
      step-Moves _ _ (or_fail-Moves _ _ (get-Moves s.id)) (λ c. value-Moves (c, n))
        (λ cs c es r ds q h. (
          sym (eq_of_== c.id s.id (first-passes (λ x. x.id == s.id) cs c q.1))
              ∙ ap (λ x. x.0.id) (sym h.0),
          h.1 ∙ q.0,
        ))

  marking-Moves :
      (s : Chunk) (d by : String) (n : ℕ)
      → Moves (Marks s) (
          or_internal (Chunks.mark_compacted req.chunk_ids s.id)
          >> (or_internal (Compactions.create s.id req.chunk_ids d by)
              >> (or_internal (Chunks.get s.id) >>= λ c. pure (c, n))))
  marking-Moves s d by n =
      step-Moves _ _ (or_fail-Moves _ _ (mark_compacted-Moves req.chunk_ids s.id))
        (λ u.
          pass_over_then _ _ (or_fail-Moves _ _ (record-Moves s.id req.chunk_ids d by))
            (final-Moves s n))
        (λ cs u es r ds q h. (h.0, h.1 ∙ q))

  compact-Moves : (p : Option Principal) → Moves Compacts (compact p req)
  unfolding compact
  compact-Moves p = pass_over _ _ (authenticate-Moves p) λ q. pass_over_then _ _ (guard-Moves _ _) (
      pass_over _ _ (or_fail-Moves _ _ (topic-Moves _)) λ t.
        pass_over_then _ _ (or_fail-Moves _ _ (check-Moves q t _)) (
          pass_over _ _ (or_fail-Moves _ _ (next_sequence-Moves _)) λ n.
            step-Moves {R = Embeds} _ _ (or_fail-Moves _ _ (create-Moves _ _ n _))
              (λ s.
                step-Moves _ _ (embed_summary-Moves _ req.summary_embedding _ s.id)
                  (λ u. pass_over_then _ _ (transfer_all-Moves req.chunk_ids s.id) (
                    pass_over_then _ _ (or_fail-Moves _ _ (delete_batch-Moves req.chunk_ids))
                      (marking-Moves s _ q.id _)))
                  (λ cs u es r ds x h.
                    (h.0, h.1 ∙ ap (update (to_compact req.chunk_ids) (mark s.id)) x)))
              (λ cs s es r ds x h. (
                s,
                h.0,
                x.1,
                h.1
                    ∙ ap
                        (λ ts.
                          update (to_compact req.chunk_ids) (mark s.id)
                            (update (λ c. c.id == s.id) (embedded req.summary_embedding s.id) ts))
                        x.0,
              ))))

-- What `Uncompact` makes of the chunks.
uncompact-Moves :
    (p : Option Principal) (id : String)
    → Moves (λ cs rs ds. ds ≡ uncompacted_table id cs) (uncompact p id)
unfolding uncompact
uncompact-Moves p id = pass_over _ _ (authenticate-Moves p) λ q.
    pass_over_then _ _ (guard-Moves _ _) (
      pass_over _ _ (or_fail-Moves _ _ (summary_record-Moves id)) λ entry.
        pass_over _ _ (or_fail-Moves _ _ (topic-Moves entry.document_id)) λ t.
          pass_over_then _ _ (or_fail-Moves _ _ (check-Moves q t _)) (
            step-Moves {R = λ ids cs rs ds. ds ≡ select (λ c. not (c.id == id)) cs} _ _
              (or_fail-Moves _ _ (restore_compacted-Moves id))
              (λ ids. pass_over_then _ _ (or_fail-Moves _ _ (delete_vector-Moves id)) (
                pass_over_then _ _ (or_fail-Moves _ _ (delete_record-Moves entry.id)) (
                  step-Moves {R = λ u. Same} _ _ (or_fail-Moves _ _ (delete-Moves id))
                    (λ u. pass_over_then _ _ (enqueue-Moves entry.document_id "embedding") (
                      pass_over _ _ (or_fail-Moves _ _ (get_multiple-Moves ids))
                        (λ f. pure-Moves _)))
                    (λ cs u es rs ds x h. h ∙ x))))
              (λ cs ids es rs ds x h. h ∙ ap (select (λ c. not (c.id == id))) x.0)))

-- If `Compact` returns a summary with a new ID and `Uncompact` of that summary succeeds at once, the
-- table of chunks is as it was before both, but that the active chunks named in the request have no
-- embedding, whichever documents they belong to.
pub uncompact-compact :
    (p q : Option Principal) (req : CompactRequest) (w : World) (r : Chunk × ℕ) (rs : List Chunk)
    → (compact p req w).0 ≡ ok r
    → is_unused r.0.id w.db.chunks ≡ true
    → contains req.chunk_ids r.0.id ≡ false
    → (uncompact q r.0.id (compact p req w).1).0 ≡ ok rs
    → (uncompact q r.0.id (compact p req w).1).1.db.chunks
      ≡ update (to_compact req.chunk_ids) restored w.db.chunks
uncompact-compact p q req w r rs h u n k =
    let (s, i, b, e) = (compact-Moves req p).at w r h in
    (uncompact-Moves q r.0.id).at (compact p req w).1 rs k
    ∙ ap (uncompacted_table r.0.id) e
    ∙ subst
        (λ id.
          uncompacted_table id (compacted_table req s w.db.chunks)
          ≡ update (to_compact req.chunk_ids) restored w.db.chunks)
        i (uncompacted-compacted req s w.db.chunks b (rw i n) (rw i u))
