-- ===== src/Worker/Memory/Effects.antt =====
-- What internal/worker/memory_maintenance.go may do to the table of memories, whatever the LLM answers.
use creel.Base.{
  subst, Option-cases, String, Bool, true, false, List, [], ◌∷◌, ◌++◌, map, Option, none, some, ◌≡◌,
  refl, sym, ap, ◌∙◌, ◌⊎◌, inl, inr, arith, Bool-cases, not, ◌||◌, ◌==◌, update, if◌then◌else◌,
  exists,
}
use creel.Exec.{Exec, Result, ok, err, guard, pure, fail, or_fail, ◌>>=◌, ◌>>◌, Result-cases}
use creel.Store.Rows.{ProcessingJob, Memory, Metadata}
use creel.Store.World.{World, Error, statement}
use creel.Store.Memories
use creel.Store.Memories.{NewMemory, new_memory, set_memory, set_invalidated, find_memory}
use creel.Server.Job.{string_at}
use creel.Server.Memory.{scope_or_default}
use creel.Worker.Memory.{
  MaintenanceResponse, Model, new_fact, handle_add, handle_update, handle_delete, decide, answer,
  process,
}

-- What no UPDATE of a memory changes.
abbrev pub identity : Memory → String × (String × String)
identity m = (m.id, (m.principal, m.scope))

-- Every row is still there, with its owner and scope; at most one is added, which holds the fact.
pub record Maintained (fact principal scope : String) (before after : List Memory) : Type 0 where
  pub added : List Memory
  pub rows : map identity after ≡ map identity (before ++ added)
  pub own :
      (added ≡ [])
      ⊎ ((m : Memory) × (added ≡ m ∷ [])
          × ((m.principal ≡ principal) × (m.scope ≡ scope) × (m.content ≡ fact)))

append-nil : {A : Type 0} (xs : List A) → xs ++ [] ≡ xs
append-nil [] = refl
append-nil (x ∷ xs) = ap (λ ys. x ∷ ys) (append-nil xs)

identity-update :
    (p : Memory → Bool) (f : Memory → Memory)
    → ((m : Memory) → identity (f m) ≡ identity m)
    → (ms : List Memory) → map identity (update p f ms) ≡ map identity ms
identity-update p f h [] = refl
identity-update p f h (m ∷ ms) = elim (Bool-cases (p m)) [
  | inl e ↦ rw e (cc (h m, identity-update p f h ms))
  | inr e ↦ rw e (cc (identity-update p f h ms))
]

module _ (fact principal scope : String) where
  same-Maintained :
      (before after : List Memory) → after ≡ before → Maintained fact principal scope before after
  same-Maintained before after e = record {
    added = [];
    rows = ap (map identity) (e ∙ sym (append-nil before));
    own = inl refl;
  }

  update-Maintained :
      (p : Memory → Bool) (f : Memory → Memory) (before after : List Memory)
      → ((m : Memory) → identity (f m) ≡ identity m)
      → after ≡ update p f before
      → Maintained fact principal scope before after
  update-Maintained p f before after h e = record {
    added = [];
    rows =
        ap (map identity) e
        ∙ identity-update p f h before
        ∙ ap (map identity) (sym (append-nil before));
    own = inl refl;
  }

  -- Whatever statements fail, a run leaves the memories maintained.
  record Maintains {E A : Type 0} (m : Exec World E A) : Type 0 where
    pub at : (w : World) → Maintained fact principal scope w.db.memories (m w).1.db.memories

  guard-Maintains :
      {E A : Type 0} (b : Bool) (e : E) (m : Exec World E A)
      → Maintains m
      → Maintains (guard b e >> m)
  guard-Maintains true e m h = record { at = h.at }
  guard-Maintains false e m h = record { at = λ w. same-Maintained _ _ refl }

  read-Maintains :
      {A B : Type 0} (e : Error) (m : Exec World Error A) (k : A → Exec World Error B)
      → ((w : World) → (m w).1.db ≡ w.db)
      → ((a : A) → Maintains (k a))
      → Maintains (or_fail m e >>= k)
  read-Maintains e m k same h = record {
    at = λ w. elim (Result-cases (m w).0) [
      | inl (a, s) ↦
          subst
            (λ db.
              Maintained fact principal scope db.memories ((or_fail m e >>= k) w).1.db.memories)
            (same w) (rw s ((h a).at (m w).1))
      | inr (x, s) ↦ rw s (same-Maintained _ _ (ap (λ db. db.memories) (same w)))
    ];
  }

  last-Maintains :
      {A : Type 0} (e : Error) (m : Exec World Error A)
      → Maintains m
      → Maintains (or_fail m e >> pure {E = Error} {A = Unit {0}} tt)
  last-Maintains e m h = record {
    at = λ w. elim (Result-cases (m w).0) [
      | inl (a, s) ↦ rw s (h.at w)
      | inr (x, s) ↦ rw s (h.at w)
    ];
  }

  create-Maintains : Maintains (Memories.create (new_fact fact principal scope))
  unfolding Memories.create statement new_memory
  create-Maintains = record {
    at = λ w. elim (Bool-cases (w.env.fails w.tick)) [
      | inl e ↦ same-Maintained w.db.memories _ (ground arith)
      | inr e ↦ record {
        added = new_memory w (new_fact fact principal scope) ∷ [];
        rows = rw e refl;
        own = inr (_, refl, (refl, refl, refl));
      }
    ];
  }

  updated-Maintained :
      (f : Memory → Memory) (id : String) (w : World) (o : Option Memory)
      → ((m : Memory) → identity (f m) ≡ identity m)
      → Maintained fact principal scope w.db.memories (Memories.updated_row w.db id f o).1.memories
  updated-Maintained f id w none h = same-Maintained _ _ refl
  updated-Maintained f id w (some m) h = update-Maintained (λ n. n.id == id) f _ _ h refl

  update_memory-Maintains :
      (id content : String) (meta : Metadata) → Maintains (Memories.update_memory id content meta)
  unfolding Memories.update_memory statement set_memory
  update_memory-Maintains id content meta = record {
    at = λ w. elim (Bool-cases (w.env.fails w.tick)) [
      | inl e ↦ rw e (same-Maintained _ _ refl)
      | inr e ↦ rw e (
          updated-Maintained (set_memory content meta (w.env.now w.tick)) id w
            (find_memory id w.db.memories) (λ m. refl))
    ];
  }

  invalidate-Maintains : (id : String) → Maintains (Memories.invalidate id)
  unfolding Memories.invalidate statement set_invalidated
  invalidate-Maintains id = record {
    at = λ w.
        elim (Bool-cases (w.env.fails w.tick || not (exists (λ m. m.id == id) w.db.memories))) [
          | inl e ↦ same-Maintained _ _ (ground arith)
          | inr e ↦
              update-Maintained (λ n. n.id == id) (set_invalidated (w.env.now w.tick)) _ _
                (λ m. refl) (ground arith)
        ];
  }

  get-keeps : (id : String) (w : World) → (Memories.get id w).1.db ≡ w.db
  unfolding Memories.get statement
  get-keeps id w = ground arith

  get_by_scope-keeps : (p s : String) (w : World) → (Memories.get_by_scope p s w).1.db ≡ w.db
  unfolding Memories.get_by_scope statement
  get_by_scope-keeps p s w = ground arith

  or_fail-Maintains :
      {E F A : Type 0} (e : F) (m : Exec World E A) → Maintains m → Maintains (or_fail m e)
  or_fail-Maintains e m h = record { at = h.at }

  pure-Maintains : {E A : Type 0} (a : A) → Maintains {E = E} (pure a)
  pure-Maintains a = record { at = λ w. same-Maintained _ _ refl }

  fail-Maintains : {E A : Type 0} (e : E) → Maintains {A = A} (fail e)
  fail-Maintains e = record { at = λ w. same-Maintained _ _ refl }

  if-Maintains :
      {E A : Type 0} (b : Bool) (m n : Exec World E A)
      → Maintains m
      → Maintains n
      → Maintains (if b then m else n)
  if-Maintains true m n h k = h
  if-Maintains false m n h k = k

  answer-Maintains :
      {A : Type 0} (model : Model) (r : Result Error String)
      (k : MaintenanceResponse → Exec World Error A)
      → ((d : MaintenanceResponse) → Maintains (k d))
      → Maintains (answer model r >>= k)
  answer-Maintains model (err e) k h = record { at = λ w. same-Maintained _ _ refl }
  answer-Maintains model (ok t) k h = elim (Option-cases (model.parse t)) [
    | inl e ↦ record { at = λ w. rw (e, answer) (same-Maintained _ _ refl) }
    | inr (d, e) ↦ record { at = λ w. rw (e, answer) ((h d).at w) }
  ]

  ruleset maintenance_rules = (
    guard-Maintains, or_fail-Maintains, read-Maintains, last-Maintains, create-Maintains,
    update_memory-Maintains, invalidate-Maintains, get-keeps, get_by_scope-keeps, pure-Maintains,
    fail-Maintains, if-Maintains, answer-Maintains,
  )

  decide-Maintains : (d : MaintenanceResponse) → Maintains (decide fact principal scope d)
  unfolding decide handle_add handle_update handle_delete
  decide-Maintains d = search maintenance_rules depth 12

process-Maintains :
    (model : Model) (job : ProcessingJob)
    → Maintains
        (string_at "candidate_fact" job.progress)
        (string_at "principal" job.progress)
        (scope_or_default (string_at "scope" job.progress))
        (process model job)
unfolding process
process-Maintains model job = search (maintenance_rules, decide-Maintains) depth 8

-- Whatever statements fail and whatever the model answers, processing a memory job removes no memory
-- and changes no memory's ID, owner or scope; it adds at most one, which holds the candidate fact for
-- the principal and the scope of the job.
pub process-Maintained :
    (model : Model) (job : ProcessingJob) (w : World)
    → Maintained
        (string_at "candidate_fact" job.progress)
        (string_at "principal" job.progress)
        (scope_or_default (string_at "scope" job.progress))
        w.db.memories
        (process model job w).1.db.memories
process-Maintained model job w = (process-Maintains model job).at w
