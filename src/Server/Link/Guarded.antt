-- ===== src/Server/Link/Guarded.antt =====
-- Who may create and delete links, in internal/server/link.go.
use creel.Base.{String, Option}
use creel.Store.Rows.{Principal, Action}
use creel.Server.Guarded.{WritesOnlyIf, guarded_rules}
use creel.Server.Guarded.Reading.{ChunkAllowed, LinkAllowed, reading_rules}
use creel.Server.Link.{CreateLinkRequest, create_link, delete_link}

ruleset link_rules = (guarded_rules, reading_rules)

pub create_link-WritesOnlyIf :
    (p : Option Principal) (req : CreateLinkRequest)
    → WritesOnlyIf (ChunkAllowed p req.source_chunk_id Action.write) (create_link p req)
unfolding create_link
create_link-WritesOnlyIf p req = search link_rules

pub delete_link-WritesOnlyIf :
    (p : Option Principal) (id : String)
    → WritesOnlyIf (LinkAllowed p id Action.write) (delete_link p id)
unfolding delete_link
delete_link-WritesOnlyIf p id = search link_rules depth 10
