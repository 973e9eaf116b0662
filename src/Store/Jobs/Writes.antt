-- ===== src/Store/Jobs/Writes.antt =====
-- What the writes of internal/store/job.go do to the table of jobs, whether or not they succeed.
use creel.Base.{
  refl, String, [], ◌∷◌, ◌++◌, ◌≡◌, ◌⊎◌, inl, inr, Option, arith, Bool-cases, update, exists, ◌==◌,
}
use creel.Store.Rows.{JobStatus, Metadata, ProcessingJob}
use creel.Store.World.{World}
use creel.Store.Jobs
use creel.Store.Jobs.{update_status, set_status, create_docless, new_job, has_document}

pub jobs-update_status :
    (id : String) (s : JobStatus) (msg : Option String) (w : World)
    → ((update_status id s msg w).1.db.jobs ≡ w.db.jobs)
      ⊎ ((update_status id s msg w).1.db.jobs
          ≡ update (λ j. j.id == id) (set_status s msg (w.env.now w.tick)) w.db.jobs)
unfolding update_status
jobs-update_status id s msg w = elim (Bool-cases (w.env.fails w.tick)) [
  | inl f ↦ inl (ground arith)
  | inr f ↦ elim (Bool-cases (exists (λ j. j.id == id) w.db.jobs)) [
    | inl e ↦ inr (ground arith)
    | inr e ↦ inl (ground arith)
  ]
]

pub jobs-create_docless :
    (t : String) (progress : Metadata) (w : World)
    → ((create_docless t progress w).1.db.jobs ≡ w.db.jobs)
      ⊎ ((create_docless t progress w).1.db.jobs ≡ w.db.jobs ++ new_job w "" t progress ∷ [])
unfolding create_docless
jobs-create_docless t progress w = elim (Bool-cases (w.env.fails w.tick)) [
  | inl f ↦ inl (ground arith)
  | inr f ↦ inr (ground arith)
]

-- The three ways to create a job.
pub data NewJob : Type 0 where
  of_document : String → String → NewJob
  with_progress : String → String → Metadata → NewJob
  docless : String → Metadata → NewJob

unfoldable pub create_job : NewJob → World → World
create_job (of_document id t) w = (Jobs.create id t w).1
create_job (with_progress id t progress) w = (Jobs.create_with_progress id t progress w).1
create_job (docless t progress) w = (create_docless t progress w).1

pub jobs-create_job :
    (n : NewJob) (w : World)
    → ((create_job n w).db.jobs ≡ w.db.jobs)
      ⊎ ((j : ProcessingJob) × ((create_job n w).db.jobs ≡ w.db.jobs ++ j ∷ [])
          × (j.id ≡ w.env.new_id w.tick))
unfolding create_job Jobs.create Jobs.create_with_progress Jobs.insert_document_job
jobs-create_job (of_document id t) w = elim (Bool-cases (w.env.fails w.tick)) [
  | inl f ↦ inl (ground arith)
  | inr f ↦ elim (Bool-cases (has_document w.db.documents id)) [
    | inl e ↦ inr (new_job w id t [], ground arith, refl)
    | inr e ↦ inl (ground arith)
  ]
]
jobs-create_job (with_progress id t progress) w = elim (Bool-cases (w.env.fails w.tick)) [
  | inl f ↦ inl (ground arith)
  | inr f ↦ elim (Bool-cases (has_document w.db.documents id)) [
    | inl e ↦ inr (new_job w id t progress, ground arith, refl)
    | inr e ↦ inl (ground arith)
  ]
]
jobs-create_job (docless t progress) w = elim (jobs-create_docless t progress w) [
  | inl e ↦ inl e
  | inr e ↦ inr (new_job w "" t progress, e, refl)
]
