-- ===== src/Worker/Pool/Interleaving/Queue.antt =====
-- Which jobs are in the queue after the statements that worker/pool.go and its clients send.
use creel.Base.{
  String, Bool, true, false, List, [], ◌∷◌, ◌≡◌, refl, Option, none, some, arith, Memᴰ, contains,
  update, update-Memᴰ, append-Memᴰ, inl, inr, ◌==◌, Bool-cases, ap, sym, ◌∙◌, ◌++◌, eq_of_==,
  ==_refl,
}
use creel.Exec.{Result, ok, err}
use creel.Store.Rows.{ProcessingJob, JobStatus}
use creel.Store.World.{World, Error}
use creel.Store.Jobs.{is_queued, set_status, update_status}
use creel.Store.Jobs.Writes.{NewJob, create_job, jobs-update_status, jobs-create_job}
use creel.Worker.Pool.{settle}

abbrev pub NotQueued : List String → List ProcessingJob → Type 0
NotQueued claimed js =
    (j : ProcessingJob) → Memᴰ j js → contains claimed j.id ≡ true → is_queued j.status ≡ false

-- A committed claim is not queued any more.
pub published-NotQueued :
    (claimed : List String) (j : ProcessingJob) (js : List ProcessingJob)
    → is_queued j.status ≡ false
    → NotQueued claimed js
    → NotQueued (j.id ∷ claimed) (update (λ k. k.id == j.id) (λ k. j) js)
published-NotQueued claimed j js q h i m c =
    let (k, n, e) = update-Memᴰ (λ k. k.id == j.id) (λ k. j) js i m in
    elim (Bool-cases (k.id == j.id)) [
      | inl b ↦ let new : i ≡ j = e ∙ rw b refl in ap (λ x. is_queued x.status) new ∙ q
      | inr b ↦
          let old : i ≡ k = e ∙ rw b refl in
          ap (λ x. is_queued x.status) old
          ∙ h k n
              (other claimed j.id k.id b (ap (λ x. contains (j.id ∷ claimed) x.id) (sym old) ∙ c))
    ]
  where
    other :
        (claimed : List String) (a b : String)
        → (b == a) ≡ false
        → contains (a ∷ claimed) b ≡ true
        → contains claimed b ≡ true
    other claimed a b d h = ground (arith, eq_of_== a b, ==_refl a)

-- Writing a status other than `queued` keeps the claimed jobs out of the queue.
update-NotQueued :
    (claimed : List String) (p : ProcessingJob → Bool) (f : ProcessingJob → ProcessingJob)
    (js : List ProcessingJob)
    → ((k : ProcessingJob) → ((f k).id ≡ k.id) × (is_queued (f k).status ≡ false))
    → NotQueued claimed js
    → NotQueued claimed (update p f js)
update-NotQueued claimed p f js keep h i m c =
    let (k, n, e) = update-Memᴰ p f js i m in
    elim (Bool-cases (p k)) [ inl q ↦ ground (arith, keep k) | inr q ↦ ground (arith, h k n) ]

status_written-NotQueued :
    (claimed : List String) (id : String) (st : JobStatus) (msg : Option String) (w : World)
    → is_queued st ≡ false
    → NotQueued claimed w.db.jobs
    → NotQueued claimed (update_status id st msg w).1.db.jobs
unfolding set_status
status_written-NotQueued claimed id st msg w q h = elim (jobs-update_status id st msg w) [
  | inl e ↦ rw e h
  | inr e ↦ rw e (
      update-NotQueued claimed _ (set_status st msg (w.env.now w.tick)) w.db.jobs (λ k. (refl, q))
        h)
]

pub settled-NotQueued :
    (claimed : List String) (j : ProcessingJob) (r : Result Error (Unit {0})) (w : World)
    → NotQueued claimed w.db.jobs
    → NotQueued claimed (settle j r w).db.jobs
unfolding settle
settled-NotQueued claimed j (ok a) w h =
    status_written-NotQueued claimed j.id JobStatus.completed none w refl h
settled-NotQueued claimed j (err e) w h =
    status_written-NotQueued claimed j.id JobStatus.failed (some e) w refl h

appended-NotQueued :
    (claimed : List String) (js : List ProcessingJob) (new : ProcessingJob)
    → contains claimed new.id ≡ false
    → NotQueued claimed js
    → NotQueued claimed (js ++ new ∷ [])
appended-NotQueued claimed js new fresh h i m c = elim (append-Memᴰ js new i m) [
  | inl n ↦ h i n c
  | inr e ↦ absurd (ground (arith, ap (λ k. contains claimed k.id) e))
]

pub created-NotQueued :
    (claimed : List String) (n : NewJob) (w : World)
    → contains claimed (w.env.new_id w.tick) ≡ false
    → NotQueued claimed w.db.jobs
    → NotQueued claimed (create_job n w).db.jobs
created-NotQueued claimed n w fresh h = elim (jobs-create_job n w) [
  | inl e ↦ rw e h
  | inr (j, e, i) ↦
      rw e (appended-NotQueued claimed w.db.jobs j (ap (contains claimed) i ∙ fresh) h)
]
