-- ===== src/Store/Jobs/Listing.antt =====
-- `List` and `ListByTopicID` of internal/store/job.go: pages of jobs, the newest first.
use creel.Base.{
  ℕ, suc, ℤ, pos, String, Bool, false, List, [], ◌∷◌, Option, none, some, ◌&&◌, ◌||◌, not, leb,
  ◌==◌, exists, select, take, if◌then◌else◌,
}
use creel.Exec.{Exec, ok}
use creel.Store.Rows.{ProcessingJob, Document}
use creel.Store.World.{World, Error, statement}
use creel.Store.Jobs.{status_text, find_job}

-- store.ListJobsOptions.
pub record ListJobsOptions : Type 0 where
  pub document_id : String
  pub status : String
  pub page_size : ℤ
  pub page_token : String

-- ORDER BY created_at DESC.
abbrev pub insert_newest : ProcessingJob → List ProcessingJob → List ProcessingJob
insert_newest j [] = j ∷ []
insert_newest j (k ∷ ks) =
    let rest = insert_newest j ks in if leb k.created_at j.created_at then j ∷ k ∷ ks else k ∷ rest

unfoldable pub newest_first : List ProcessingJob → List ProcessingJob
newest_first [] = []
newest_first (j ∷ js) = insert_newest j (newest_first js)

-- `if pageSize <= 0 { pageSize = 50 }`.
unfoldable pub effective_page_size : ℤ → ℕ
effective_page_size (pos (suc n)) = suc n
effective_page_size _ = 50

-- created_at <= (SELECT created_at … WHERE id = token), which a missing row makes NULL.
abbrev not_newer : Option ProcessingJob → ProcessingJob → Bool
not_newer none j = false
not_newer (some t) j = leb j.created_at t.created_at

abbrev pub after_token : List ProcessingJob → String → ProcessingJob → Bool
after_token js token j = token == "" || not_newer (find_job token js) j && not (j.id == token)

abbrev pub has_status : String → ProcessingJob → Bool
has_status status j = status == "" || status_text j.status == status

-- One row more than the page is read.
unfoldable pub page_of :
    ListJobsOptions → (ProcessingJob → Bool) → List ProcessingJob → List ProcessingJob
unfolding newest_first effective_page_size
page_of opts wanted js = take (suc (effective_page_size opts.page_size)) (
    newest_first
      (select (λ j. wanted j && (has_status opts.status j && after_token js opts.page_token j)) js))

-- JobStore.List.
unfoldable pub list : ListJobsOptions → Exec World Error (List ProcessingJob)
unfolding statement page_of
list opts = statement "listing processing jobs" λ w. (
  ok (page_of opts (λ j. opts.document_id == "" || j.document_id == opts.document_id) w.db.jobs),
  w.db,
)

abbrev pub in_topic : List Document → String → ProcessingJob → Bool
in_topic ds topic_id j = exists (λ d. d.id == j.document_id && d.topic_id == topic_id) ds

-- JobStore.ListByTopicID, which does not read the option of a document.
unfoldable pub list_by_topic_id : String → ListJobsOptions → Exec World Error (List ProcessingJob)
unfolding statement page_of
list_by_topic_id topic_id opts =
    statement "listing processing jobs by topic"
      λ w. (ok (page_of opts (in_topic w.db.documents topic_id) w.db.jobs), w.db)
