-- ===== src/Server/Link.antt =====
-- internal/server/link.go: the LinkService.
pub mod Guarded
use creel.Base.{ℕ, String, Bool, List, Option, none, some, ◌||◌, not, ◌==◌}
use creel.Exec.{Exec, Result, ok, err, pure, guard, ◌>>=◌, ◌>>◌}
use creel.Store.Rows.{Principal, Action, Metadata, Link, LinkType}
use creel.Store.World.{World}
use creel.Store.Chunks
use creel.Store.Links
use creel.Server.Status.{
  Code, Handler, authenticate, authorize, or_internal, or_not_found, invalid_argument,
}

-- pb.LinkType; an open enum.
pub data ProtoLinkType : Type 0 where
  unspecified manual auto compaction_transfer : ProtoLinkType
  unknown : ℕ → ProtoLinkType

unfoldable pub proto_link_type_to_store : ProtoLinkType → LinkType
proto_link_type_to_store ProtoLinkType.manual = LinkType.manual
proto_link_type_to_store ProtoLinkType.auto = LinkType.auto
proto_link_type_to_store ProtoLinkType.compaction_transfer = LinkType.compaction_transfer
proto_link_type_to_store _ = LinkType.manual

-- The default branch is for words that the column does not hold.
unfoldable pub store_link_type_to_proto : LinkType → ProtoLinkType
store_link_type_to_proto LinkType.manual = ProtoLinkType.manual
store_link_type_to_proto LinkType.auto = ProtoLinkType.auto
store_link_type_to_proto LinkType.compaction_transfer = ProtoLinkType.compaction_transfer

pub record CreateLinkRequest : Type 0 where
  pub source_chunk_id : String
  pub target_chunk_id : String
  pub link_type : ProtoLinkType
  pub metadata : Metadata

unfoldable pub create_link : Option Principal → CreateLinkRequest → Handler Link
create_link p req = do
  caller ← authenticate p
  guard (not (req.source_chunk_id == "" || req.target_chunk_id == "")) invalid_argument
  source ← or_not_found (Chunks.get req.source_chunk_id)
  topic_id ← or_internal (Chunks.document_topic_id source.document_id)
  authorize caller topic_id Action.write
  or_not_found (Chunks.get req.target_chunk_id)
  or_internal (
      Links.create req.source_chunk_id req.target_chunk_id (proto_link_type_to_store req.link_type)
        caller.id req.metadata)

unfoldable pub delete_link : Option Principal → String → Handler (Unit {0})
delete_link p id = do
  caller ← authenticate p
  guard (not (id == "")) invalid_argument
  link ← or_not_found (Links.get id)
  source ← or_internal (Chunks.get link.source_chunk_id)
  topic_id ← or_internal (Chunks.document_topic_id source.document_id)
  authorize caller topic_id Action.write
  or_internal (Links.delete id)

unfoldable pub list_links : Option Principal → String → Bool → Handler (List Link)
list_links p chunk_id include_backlinks = do
  caller ← authenticate p
  guard (not (chunk_id == "")) invalid_argument
  chunk ← or_not_found (Chunks.get chunk_id)
  topic_id ← or_internal (Chunks.document_topic_id chunk.document_id)
  authorize caller topic_id Action.read
  or_internal (Links.list_by_chunk chunk_id include_backlinks)
