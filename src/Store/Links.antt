-- ===== src/Store/Links.antt =====
-- internal/store/link.go: the table of links between chunks.
use creel.Base.{
  sort_by, contains, ℕ, ◌+◌, String, Bool, List, [], ◌∷◌, ◌++◌, ◌&&◌, ◌||◌, not, leb, ◌==◌, length,
  select, first, exists, update, if◌then◌else◌,
}
use creel.Exec.{Exec, ok, err, pure, ◌>>=◌}
use creel.Store.Rows.{Link, LinkType, Metadata, Chunk}
use creel.Store.World.{World, Error, statement, row_or}

abbrev has_chunk : List Chunk → String → Bool
has_chunk cs id = exists (λ c. c.id == id) cs

abbrev new_link : World → String → String → LinkType → String → Metadata → Link
new_link w source target link_type created_by metadata = record {
  id = w.env.new_id w.tick;
  source_chunk_id = source;
  target_chunk_id = target;
  link_type = link_type;
  created_by = created_by;
  metadata = metadata;
  created_at = w.env.now w.tick;
}

-- LinkStore.Create; both chunks must be there.
unfoldable pub create : String → String → LinkType → String → Metadata → Exec World Error Link
unfolding statement
create source target link_type created_by metadata = statement "inserting link" λ w.
    let l = new_link w source target link_type created_by metadata in
    if has_chunk w.db.chunks source && has_chunk w.db.chunks target
    then (ok l, record w.db { links = w.db.links ++ l ∷ [] })
    else (err "inserting link", w.db)

-- LinkStore.Get.
unfoldable pub get : String → Exec World Error Link
unfolding statement
get id =
    statement "querying link"
      λ w. (row_or "link not found" (first (λ l. l.id == id) w.db.links), w.db)

-- LinkStore.Delete.
unfoldable pub delete : String → Exec World Error (Unit {0})
unfolding statement
delete id = statement "deleting link" λ w.
    if exists (λ l. l.id == id) w.db.links
    then (ok tt, record w.db { links = select (λ l. not (l.id == id)) w.db.links })
    else (err "link not found", w.db)

-- ORDER BY created_at.
unfoldable pub links_by_created_at : List Link → List Link
links_by_created_at = sort_by (λ x y. leb x.created_at y.created_at)

abbrev pub touches : String → Link → Bool
touches id l = l.source_chunk_id == id || l.target_chunk_id == id

-- LinkStore.ListByChunk.
unfoldable pub list_by_chunk : String → Bool → Exec World Error (List Link)
unfolding statement links_by_created_at
list_by_chunk chunk_id include_backlinks = statement "querying links" λ w. (
  ok (
      links_by_created_at (
        select
          (λ l. if include_backlinks then touches chunk_id l else l.source_chunk_id == chunk_id)
          w.db.links)),
  w.db,
)

abbrev touches_any : List String → Link → Bool
touches_any ids l = contains ids l.source_chunk_id || contains ids l.target_chunk_id

-- LinkStore.ListByChunks.
unfoldable pub list_by_chunks : List String → Exec World Error (List Link)
unfolding statement links_by_created_at
list_by_chunks [] w = (ok [], w)
list_by_chunks (i ∷ ids) w =
    statement "querying links by chunks"
      (λ v. (ok (links_by_created_at (select (touches_any (i ∷ ids)) v.db.links)), v.db)) w

unfoldable pub set_source : String → Link → Link
set_source id l = record l { source_chunk_id = id }

unfoldable pub set_target : String → Link → Link
set_target id l = record l { target_chunk_id = id }

abbrev from_chunk : String → Link → Bool
from_chunk id l = l.source_chunk_id == id

abbrev to_chunk : String → Link → Bool
to_chunk id l = l.target_chunk_id == id

-- The two UPDATEs of `TransferLinks`, each with the number of rows that it changed. A link's new end
-- must be there, if a link is changed.
unfoldable pub transfer_sources : String → String → Exec World Error ℕ
unfolding statement set_source
transfer_sources old new = statement "transferring source links" λ w.
    if exists (from_chunk old) w.db.links && not (has_chunk w.db.chunks new)
    then (err "transferring source links", w.db)
    else (
      ok (length (select (from_chunk old) w.db.links)),
      record w.db { links = update (from_chunk old) (set_source new) w.db.links },
    )

unfoldable pub transfer_targets : String → String → Exec World Error ℕ
unfolding statement set_target
transfer_targets old new = statement "transferring target links" λ w.
    if exists (to_chunk old) w.db.links && not (has_chunk w.db.chunks new)
    then (err "transferring target links", w.db)
    else (
      ok (length (select (to_chunk old) w.db.links)),
      record w.db { links = update (to_chunk old) (set_target new) w.db.links },
    )

-- LinkStore.TransferLinks; the two statements are no transaction.
unfoldable pub transfer_links : String → String → Exec World Error ℕ
unfolding transfer_sources transfer_targets
transfer_links old new = do
  sources ← transfer_sources old new
  targets ← transfer_targets old new
  pure (sources + targets)

-- LinkStore.DeleteByChunk.
unfoldable pub delete_by_chunk : String → Exec World Error (Unit {0})
unfolding statement
delete_by_chunk chunk_id =
    statement "deleting links by chunk"
      λ w. (ok tt, record w.db { links = select (λ l. not (touches chunk_id l)) w.db.links })
