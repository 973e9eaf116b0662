-- ===== src/Store/Compactions.antt =====
-- internal/store/compaction.go: the table of compaction records.
use creel.Base.{
  sort_by, String, List, [], ◌∷◌, ◌++◌, ◌&&◌, not, leb, ◌==◌, select, first, exists, if◌then◌else◌,
}
use creel.Exec.{Exec, ok, err}
use creel.Store.Rows.{CompactionRecord}
use creel.Store.World.{World, Error, statement, row_or}
use creel.Store.Jobs.{has_document}

abbrev new_record : World → String → List String → String → String → CompactionRecord
new_record w summary_id source_ids document_id created_by = record {
  id = w.env.new_id w.tick;
  summary_chunk_id = summary_id;
  source_chunk_ids = source_ids;
  document_id = document_id;
  created_by = created_by;
  created_at = w.env.now w.tick;
}

-- CompactionStore.Create; the summary chunk and the document must be there.
unfoldable pub create : String → List String → String → String → Exec World Error CompactionRecord
unfolding statement
create summary_id source_ids document_id created_by = statement "inserting compaction record" λ w.
    let r = new_record w summary_id source_ids document_id created_by in
    if exists (λ c. c.id == summary_id) w.db.chunks && has_document w.db.documents document_id
    then (ok r, record w.db { compactions = w.db.compactions ++ r ∷ [] })
    else (err "inserting compaction record", w.db)

-- CompactionStore.GetBySummaryChunkID.
unfoldable pub get_by_summary_chunk_id : String → Exec World Error CompactionRecord
unfolding statement
get_by_summary_chunk_id summary_id = statement "querying compaction record" λ w. (
  row_or "compaction record not found"
      (first (λ r. r.summary_chunk_id == summary_id) w.db.compactions),
  w.db,
)

-- ORDER BY created_at.
unfoldable pub records_by_created_at : List CompactionRecord → List CompactionRecord
records_by_created_at = sort_by (λ x y. leb x.created_at y.created_at)

-- CompactionStore.ListByDocument.
unfoldable pub list_by_document : String → Exec World Error (List CompactionRecord)
unfolding statement records_by_created_at
list_by_document document_id = statement "listing compaction records" λ w.
    (ok (records_by_created_at (select (λ r. r.document_id == document_id) w.db.compactions)), w.db)

-- CompactionStore.Delete.
unfoldable pub delete : String → Exec World Error (Unit {0})
unfolding statement
delete id = statement "deleting compaction record" λ w.
    if exists (λ r. r.id == id) w.db.compactions
    then (ok tt, record w.db { compactions = select (λ r. not (r.id == id)) w.db.compactions })
    else (err "compaction record not found", w.db)
