-- ===== src/Server/Compaction/Guarded.antt =====
-- Who may compact, restore or request it, in internal/server/compaction.go.
use creel.Base.{String, List, Option}
use creel.Store.Rows.{Principal, Action}
use creel.Server.Guarded.{WritesOnlyIf, guarded_rules}
use creel.Server.Guarded.Reading.{DocumentAllowed, SummaryAllowed, reading_rules}
use creel.Server.Compaction.{CompactRequest, compact, uncompact, request_compaction}

ruleset compaction_rules = (guarded_rules, reading_rules)

pub compact-WritesOnlyIf :
    (p : Option Principal) (req : CompactRequest)
    → WritesOnlyIf (DocumentAllowed p req.document_id Action.write) (compact p req)
unfolding compact
compact-WritesOnlyIf p req = search compaction_rules

pub uncompact-WritesOnlyIf :
    (p : Option Principal) (id : String)
    → WritesOnlyIf (SummaryAllowed p id Action.write) (uncompact p id)
unfolding uncompact
uncompact-WritesOnlyIf p id = search compaction_rules

pub request_compaction-WritesOnlyIf :
    (p : Option Principal) (document_id : String) (ids : List String)
    → WritesOnlyIf
        (DocumentAllowed p document_id Action.write)
        (request_compaction p document_id ids)
unfolding request_compaction
request_compaction-WritesOnlyIf p document_id ids = search compaction_rules
