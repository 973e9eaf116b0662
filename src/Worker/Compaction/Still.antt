-- ===== src/Worker/Compaction/Still.antt =====
-- Steps of a compaction that leave every chunk as it is, but for its status and embedding.
use creel.Base.{
  ℕ, ◌+◌, ℤ, String, Bool, true, false, List, [], ◌∷◌, ◌++◌, Option, ◌≡◌, refl, ap, ◌∙◌, inl, inr,
  arith, Bool-cases, map, update, exists, ◌==◌, if◌then◌else◌,
}
use creel.Exec.{Exec, Result, pure, guard, or_fail, ◌>>=◌, Result-cases}
use creel.Store.Rows.{Chunk, Metadata, Vector}
use creel.Store.World.{World, Db, Error, statement}
use creel.Store.Chunks
use creel.Store.Chunks.{new_chunk, set_embedding, mark, to_compact}
use creel.Store.Links
use creel.Store.Vectors
use creel.Store.Compactions
use creel.Worker.Status.{result}
use creel.Worker.Compaction.{store_summary, transfer_all}

-- What no compaction changes of a chunk.
abbrev pub identity : Chunk → String × (String × (List ℕ × ℤ))
identity c = (c.id, (c.document_id, (c.content, c.sequence)))

identity-update :
    (p : Chunk → Bool) (f : Chunk → Chunk)
    → ((c : Chunk) → identity (f c) ≡ identity c)
    → (cs : List Chunk) → map identity (update p f cs) ≡ map identity cs
identity-update p f h [] = refl
identity-update p f h (c ∷ cs) = elim (Bool-cases (p c)) [
  | inl e ↦ rw e (cc (h c, identity-update p f h cs))
  | inr e ↦ rw e (cc (identity-update p f h cs))
]

pub map-append : (xs ys : List Chunk) → map identity (xs ++ ys) ≡ map identity xs ++ map identity ys
map-append [] ys = refl
map-append (x ∷ xs) ys = ap (λ zs. identity x ∷ zs) (map-append xs ys)

-- Steps that leave all chunks as they are.
pub record Still {E A : Type 0} (m : Exec World E A) : Type 0 where
  pub at : (w : World) → map identity (m w).1.db.chunks ≡ map identity w.db.chunks

statement-Still :
    {A : Type 0} (msg : Error) (f : World → Result Error A × Db)
    → ((w : World) → map identity (f w).1.chunks ≡ map identity w.db.chunks)
    → Still (statement msg f)
unfolding statement
statement-Still msg f h = record {
  at = λ w. elim (Bool-cases (w.env.fails w.tick)) [ inl e ↦ rw e refl | inr e ↦ rw e (h w) ];
}

pub or_fail-Still : {E F A : Type 0} (e : F) (m : Exec World E A) → Still m → Still (or_fail m e)
or_fail-Still e m h = record { at = h.at }

pub pure-Still : {E A : Type 0} (a : A) → Still {E = E} (pure a)
pure-Still a = record { at = λ w. refl }

pub result-Still : {A : Type 0} (r : Result Error A) → Still (result r)
result-Still r = record { at = λ w. refl }

pub guard-Still : {E : Type 0} (b : Bool) (e : E) → Still (guard b e)
guard-Still true e = record { at = λ w. refl }
guard-Still false e = record { at = λ w. refl }

pub if-Still :
    {E A : Type 0} (b : Bool) {m n : Exec World E A}
    → Still m
    → Still n
    → Still (if b then m else n)
if-Still true h k = h
if-Still false h k = k

pub bind-Still :
    {E A B : Type 0} {m : Exec World E A} {k : A → Exec World E B}
    → Still m
    → ((a : A) → Still (k a))
    → Still (m >>= k)
bind-Still {m} {k} h c = record {
  at = λ w. elim (Result-cases (m w).0) [
    | inl (a, r) ↦ rw r ((c a).at (m w).1 ∙ h.at w)
    | inr (x, r) ↦ rw r (h.at w)
  ];
}

pub list_by_document-Still :
    (id : String) (n : ℤ) (since : Option ℕ) → Still (Chunks.list_by_document id n since)
unfolding Chunks.list_by_document
list_by_document-Still id n since = statement-Still _ _ (λ w. refl)

pub get_multiple-Still : (ids : List String) → Still (Chunks.get_multiple ids)
unfolding Chunks.get_multiple
get_multiple-Still [] = record { at = λ w. refl }
get_multiple-Still (i ∷ ids) = record { at = (statement-Still _ _ (λ v. refl)).at }

pub next_sequence-Still : (id : String) → Still (Chunks.next_sequence id)
unfolding Chunks.next_sequence
next_sequence-Still id = statement-Still _ _ (λ w. refl)

pub store-Still : (id : String) (v : Vector) (m : Metadata) → Still (Vectors.store id v m)
unfolding Vectors.store
store-Still id v m = statement-Still _ _ (λ w. ground arith)

pub delete_batch-Still : (ids : List String) → Still (Vectors.delete_batch ids)
unfolding Vectors.delete_batch
delete_batch-Still ids = statement-Still _ _ (λ w. refl)

pub set_embedding_id-Still : (id e : String) → Still (Chunks.set_embedding_id id e)
unfolding Chunks.set_embedding_id set_embedding
set_embedding_id-Still id e =
    statement-Still _ _
      (λ w. identity-update (λ c. c.id == id) (set_embedding e) (λ c. refl) w.db.chunks)

pub mark_compacted-Still : (ids : List String) (s : String) → Still (Chunks.mark_compacted ids s)
unfolding Chunks.mark_compacted mark
mark_compacted-Still ids s = statement-Still _ _ λ w.
    elim (Bool-cases (exists (to_compact ids) w.db.chunks)) [
      | inl b ↦ rw b (identity-update (to_compact ids) (mark s) (λ c. refl) w.db.chunks)
      | inr b ↦ rw b refl
    ]

pub compaction-Still :
    (s : String) (ids : List String) (d by : String) → Still (Compactions.create s ids d by)
unfolding Compactions.create
compaction-Still s ids d by = statement-Still _ _ (λ w. ground arith)

pub transfer_links-Still : (old new : String) → Still (Links.transfer_links old new)
unfolding Links.transfer_links Links.transfer_sources Links.transfer_targets
transfer_links-Still old new =
    bind-Still (statement-Still _ _ (λ w. ground arith))
      λ m. bind-Still (statement-Still _ _ (λ w. ground arith)) λ n. pure-Still (m + n)

pub ruleset still_rules = (
  or_fail-Still, pure-Still, result-Still, guard-Still, if-Still, bind-Still,
  list_by_document-Still, get_multiple-Still, next_sequence-Still, store-Still, delete_batch-Still,
  set_embedding_id-Still, mark_compacted-Still, compaction-Still, transfer_links-Still,
)

pub transfer_all-Still : (ids : List String) (s : String) → Still (transfer_all ids s)
unfolding transfer_all
transfer_all-Still [] s = pure-Still tt
transfer_all-Still (id ∷ ids) s =
    bind-Still (or_fail-Still _ _ (transfer_links-Still id s)) (λ _. transfer_all-Still ids s)

pub store_summary-Still :
    (model id : String) (meta : Metadata) (vs : List Vector)
    → Still (store_summary model id meta vs)
unfolding store_summary
store_summary-Still model id meta [] = pure-Still tt
store_summary-Still model id meta (v ∷ vs) =
    bind-Still (or_fail-Still _ _ (store-Still id v _))
      (λ _. or_fail-Still _ _ (set_embedding_id-Still id id))
