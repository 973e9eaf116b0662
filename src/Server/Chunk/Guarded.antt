-- ===== src/Server/Chunk/Guarded.antt =====
-- Who may add and delete chunks, in internal/server/chunk.go.
use creel.Base.{String, List, Option}
use creel.Store.Rows.{Principal, Action}
use creel.Server.Guarded.{WritesOnlyIf, guarded_rules}
use creel.Server.Guarded.Reading.{DocumentAllowed, ChunkAllowed, reading_rules}
use creel.Server.Chunk.{ChunkInput, ingest_chunks, delete_chunk}

ruleset chunk_rules = (guarded_rules, reading_rules)

pub ingest_chunks-WritesOnlyIf :
    (p : Option Principal) (document_id : String) (inputs : List ChunkInput)
    → WritesOnlyIf (DocumentAllowed p document_id Action.write) (ingest_chunks p document_id inputs)
unfolding ingest_chunks
ingest_chunks-WritesOnlyIf p document_id inputs = search chunk_rules

pub delete_chunk-WritesOnlyIf :
    (p : Option Principal) (id : String)
    → WritesOnlyIf (ChunkAllowed p id Action.admin) (delete_chunk p id)
unfolding delete_chunk
delete_chunk-WritesOnlyIf p id = search chunk_rules
