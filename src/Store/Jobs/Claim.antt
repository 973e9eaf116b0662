-- ===== src/Store/Jobs/Claim.antt =====
-- `ClaimNext` of internal/store/job.go: which job it takes, and what its failures leave behind.
use creel.Base.{
  ℕ, suc, ◌≤◌, String, true, false, List, [], ◌∷◌, ◌≡◌, ◌≢◌, refl, ap, Option, none, some, arith,
  leb, Memᴰ, select, select-Memᴰ, Memᴰ-select, update, ◌==◌, Bool-cases, Option-cases, inl, inr,
}
use creel.Exec.{ok, err}
use creel.Store.Rows.{ProcessingJob}
use creel.Store.World.{World, Db, Error}
use creel.Store.Jobs.{claimable, oldest, mark_running, claim_next}

pub oldest-Memᴰ : (js : List ProcessingJob) (j : ProcessingJob) → oldest js ≡ some j → Memᴰ j js
unfolding oldest
oldest-Memᴰ [] j h = cc
oldest-Memᴰ (k ∷ js) j h = elim (Option-cases (oldest js)) [
  | inl e ↦ Memᴰ.head (ground arith)
  | inr (i, e) ↦ elim (Bool-cases (leb k.created_at i.created_at)) [
    | inl b ↦ Memᴰ.head (ground arith)
    | inr b ↦ Memᴰ.tail (oldest-Memᴰ js j (ground arith))
  ]
]

oldest-nonempty : (js : List ProcessingJob) (i : ProcessingJob) → Memᴰ i js → oldest js ≢ none
unfolding oldest
oldest-nonempty [] i m h = elim m [ ]
oldest-nonempty (k ∷ js) i m h = cc

oldest-le :
    (js : List ProcessingJob) (j i : ProcessingJob)
    → oldest js ≡ some j
    → Memᴰ i js
    → j.created_at ≤ i.created_at
unfolding oldest
oldest-le [] j i h m = cc
oldest-le (k ∷ js) j i h (Memᴰ.head e) = ground (arith, ap (λ x. x.created_at) e)
oldest-le (k ∷ js) j i h (Memᴰ.tail m) = elim (Option-cases (oldest js)) [
  | inl e ↦ absurd (oldest-nonempty js i m e)
  | inr (q, e) ↦ ground (arith, oldest-le js q i e m)
]

-- What `ClaimNext` returns and leaves in the table when it takes the job `j`.
pub record Claimed (job_type : String) (now : ℕ) (before after : Db) (j : ProcessingJob)
    : Type 0 where
  pub row : ProcessingJob
  pub found : Memᴰ row before.jobs
  pub was_claimable : claimable job_type row ≡ true
  pub is_oldest :
      (i : ProcessingJob)
      → Memᴰ i before.jobs
      → claimable job_type i ≡ true
      → row.created_at ≤ i.created_at
  pub returned : j ≡ mark_running now row
  pub written :
      after ≡ record before { jobs = update (λ k. k.id == row.id) (mark_running now) before.jobs }

module _ (t : String) (w : World) where
  abbrev candidates : List ProcessingJob
  candidates = select (claimable t) w.db.jobs

  -- The time of the UPDATE: one statement, BEGIN, has run before it.
  abbrev claim_time : ℕ
  claim_time = w.env.now (suc w.tick)

  pub claim_next-picks :
      (o : Option ProcessingJob)
      → oldest candidates ≡ o
      → (j : ProcessingJob) → (claim_next t w).0 ≡ ok (some j)
      → (row : ProcessingJob) × (o ≡ some row)
        × (j ≡ mark_running claim_time row)
        × ((claim_next t w).1.db ≡ record w.db {
          jobs = update (λ k. k.id == row.id) (mark_running claim_time) w.db.jobs;
        })
  unfolding claim_next
  claim_next-picks none e j h = ground arith
  claim_next-picks (some row) e j h = (row, refl, ground arith, ground arith)

  pub claim_next-Claimed :
      (j : ProcessingJob)
      → (claim_next t w).0 ≡ ok (some j)
      → Claimed t claim_time w.db (claim_next t w).1.db j
  claim_next-Claimed j h =
      let (row, o, r, d) = claim_next-picks (oldest candidates) refl j h in
      let (m, c) = select-Memᴰ (claimable t) w.db.jobs row (oldest-Memᴰ candidates row o) in
      record {
        row = row;
        found = m;
        was_claimable = c;
        is_oldest =
            λ i n q. oldest-le candidates row i o (Memᴰ-select (claimable t) w.db.jobs i n q);
        returned = r;
        written = d;
      }

  -- A claim that fails, in whichever of its statements, leaves the tables as they were.
  pub claim_next-err : (e : Error) → (claim_next t w).0 ≡ err e → (claim_next t w).1.db ≡ w.db
  unfolding claim_next
  claim_next-err e h = ground arith

  claim_next-misses :
      (o : Option ProcessingJob)
      → oldest candidates ≡ o
      → (claim_next t w).0 ≡ ok none
      → (o ≡ none) × ((claim_next t w).1.db ≡ w.db)
  unfolding claim_next
  claim_next-misses none e h = (refl, ground arith)
  claim_next-misses (some row) e h = ground arith

  -- A claim that finds nothing changes nothing, and there was nothing to find.
  pub claim_next-none :
      (claim_next t w).0 ≡ ok none
      → ((claim_next t w).1.db ≡ w.db)
        × ((i : ProcessingJob) → Memᴰ i w.db.jobs → claimable t i ≡ false)
  claim_next-none h =
      let (o, d) = claim_next-misses (oldest candidates) refl h in
      (
        d,
        λ i m. elim (Bool-cases (claimable t i)) [
          | inl c ↦
              absurd (oldest-nonempty candidates i (Memᴰ-select (claimable t) w.db.jobs i m c) o)
          | inr c ↦ c
        ],
      )
