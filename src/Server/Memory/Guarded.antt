-- ===== src/Server/Memory/Guarded.antt =====
-- Who may change a memory, in internal/server/memory.go: its owner only.
use creel.Base.{
  String, Bool, true, false, Option, some, ◌≡◌, refl, ◌⊎◌, inl, inr, arith, ◌==◌, eq_of_==,
}
use creel.Exec.{guard, ◌>>◌}
use creel.Store.Rows.{Principal, Memory, Metadata}
use creel.Store.World.{World, Db, statement}
use creel.Store.Memories
use creel.Store.Memories.{find_memory}
use creel.Server.Status.{Code, Handler}
use creel.Server.Guarded.{WritesOnlyIf, guarded_rules}
use creel.Store.Reads.{Reads}
use creel.Server.Guarded.Reading.{reading_rules}
use creel.Server.Memory.{update_memory, delete_memory}

-- The caller is known and owns the memory.
abbrev pub OwnsMemory : Option Principal → String → Db → Type 0
OwnsMemory p id db =
    (m : Memory) × (find_memory id db.memories ≡ some m)
    × ((q : Principal) × (p ≡ some q) × (m.principal ≡ q.id))

owner-WritesOnlyIf :
    {A : Type 0} (p : Option Principal) (q : Principal) (owner : String) (e : Code) (m : Handler A)
    → p ≡ some q
    → WritesOnlyIf
        (λ db. (q : Principal) × (p ≡ some q) × (owner ≡ q.id))
        (guard (owner == q.id) e >> m)
owner-WritesOnlyIf p q owner e m h = record { at = λ w. owner-at w (owner == q.id) refl }
  where
    owner-at :
        (w : World) (b : Bool)
        → (owner == q.id) ≡ b
        → (((guard b e >> m) w).1.db ≡ w.db) ⊎ ((q : Principal) × (p ≡ some q) × (owner ≡ q.id))
    owner-at w true x = inr (q, h, eq_of_== owner q.id x)
    owner-at w false x = inl refl

memory-Reads : (id : String) → Reads (λ m db. find_memory id db.memories ≡ some m) (Memories.get id)
unfolding Memories.get statement
memory-Reads id = record { keeps = λ w. ground arith; gives = λ w a h. ground arith }

ruleset memory_rules = (guarded_rules, reading_rules, owner-WritesOnlyIf, memory-Reads)

pub update_memory-WritesOnlyIf :
    (p : Option Principal) (id content : String) (metadata : Option Metadata)
    → WritesOnlyIf (OwnsMemory p id) (update_memory p id content metadata)
unfolding update_memory
update_memory-WritesOnlyIf p id content metadata = search memory_rules

pub delete_memory-WritesOnlyIf :
    (p : Option Principal) (id : String) → WritesOnlyIf (OwnsMemory p id) (delete_memory p id)
unfolding delete_memory
delete_memory-WritesOnlyIf p id = search memory_rules
