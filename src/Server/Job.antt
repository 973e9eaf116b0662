-- ===== src/Server/Job.antt =====
-- internal/server/job.go: the JobService.
use creel.Base.{
  ℕ, ◌-◌, String, List, [], ◌∷◌, ◌++◌, Option, none, some, not, ltb, ◌==◌, length, take, get_elem?,
  if◌then◌else◌,
}
use creel.Exec.{pure, guard, ◌>>=◌, ◌>>◌}
use creel.Store.Rows.{Principal, Action, ProcessingJob, Metadata, lookup, str}
use creel.Store.Grants.{grant_store}
use creel.Store.Documents
use creel.Store.Jobs
use creel.Store.Jobs.Listing.{ListJobsOptions, effective_page_size, list, list_by_topic_id}
use creel.Auth.Authorizer.{accessible_topics}
use creel.Server.Status.{
  Handler, authenticate, authorize, or_internal, or_not_found, invalid_argument, permission_denied,
}

-- `v, _ := m[k].(string)`: the empty string stands for anything else.
abbrev pub string_at : String → Metadata → String
string_at k m = elim (lookup k m) [ none ↦ "" | some (str s) ↦ s | some _ ↦ "" ]

-- A job without a document belongs to the principal in its progress.
unfoldable pub get_job : Option Principal → String → Handler ProcessingJob
get_job p id = do
  caller ← authenticate p
  guard (not (id == "")) invalid_argument
  job ← or_not_found (Jobs.get id)
  if job.document_id == ""
      then (do guard (string_at "principal" job.progress == caller.id) permission_denied; pure job)
      else (do
        topic_id ← or_not_found (Documents.topic_id_for_document job.document_id)
        authorize caller topic_id Action.read
        pure job)

pub record ListJobsRequest : Type 0 where
  pub topic_id : String
  pub options : ListJobsOptions

-- The loop over the accessible topics.
unfoldable pub collect_jobs : List String → ListJobsOptions → Handler (List ProcessingJob)
collect_jobs [] opts = pure []
collect_jobs (t ∷ ts) opts = do
  jobs ← or_internal (list_by_topic_id t opts)
  rest ← collect_jobs ts opts
  pure (jobs ++ rest)

-- The ID of the last job of the page, when there are more jobs.
unfoldable pub page : ℕ → List ProcessingJob → List ProcessingJob × String
page size jobs =
    if ltb size (length jobs)
    then (take size jobs, elim (get_elem? jobs (size - 1)) [ none ↦ "" | some j ↦ j.id ])
    else (jobs, "")

unfoldable pub select_jobs : Principal → ListJobsRequest → Handler (List ProcessingJob)
select_jobs caller req =
    if not (req.topic_id == "")
    then (do
      authorize caller req.topic_id Action.read
      or_internal (list_by_topic_id req.topic_id (record req.options { document_id = "" })))
    else if not (req.options.document_id == "")
    then (do
      topic_id ← or_not_found (Documents.topic_id_for_document req.options.document_id)
      authorize caller topic_id Action.read
      or_internal (list req.options))
    else (do
      topic_ids ← or_internal (accessible_topics grant_store caller Action.read)
      collect_jobs topic_ids (record req.options { document_id = "" }))

-- With no accessible topic the source returns at once, what the empty page gives too.
unfoldable pub list_jobs :
    Option Principal → ListJobsRequest → Handler (List ProcessingJob × String)
unfolding page
list_jobs p req = do
  caller ← authenticate p
  jobs ← select_jobs caller req
  pure (page (effective_page_size req.options.page_size) jobs)
