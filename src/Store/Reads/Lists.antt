-- ===== src/Store/Reads/Lists.antt =====
-- The statements of internal/store that list rows: all of them are rows of the table that were asked for.
use creel.Base.{
  Bool-cases, inl, inr, subst, some, String, Bool, true, List, ◌≡◌, ◌==◌, arith, select,
  select-Memᴰ, Memᴰ, sort_by, sort_by-Memᴰ, if◌then◌else◌,
}
use creel.Exec.{Result, ok}
use creel.Store.Rows.{Link}
use creel.Store.World.{Db, Error, statement}
use creel.Store.Reads.{Reads}
use creel.Store.Grants.{find_topic}
use creel.Store.Topics
use creel.Store.Documents
use creel.Store.Links
use creel.Store.Links.{touches}
use creel.Store.Compactions

-- All of the rows are in the table and pass the test.
abbrev pub Chosen : {A : Type 0} → (A → Bool) → List A → List A → Type 0
Chosen {A} p table rows = (x : A) → Memᴰ x rows → Memᴰ x table × (p x ≡ true)

sort_by-Chosen :
    {A : Type 0} (before : A → A → Bool) (p : A → Bool) (table : List A)
    → Chosen p table (sort_by before (select p table))
sort_by-Chosen before p table x m = select-Memᴰ p table x (sort_by-Memᴰ before (select p table) x m)

ok_list : {A : Type 0} (x y : List A) → ◌≡◌ {A = Result Error (List A)} (ok x) (ok y) → x ≡ y
ok_list x y e = cc

-- A statement that lists what a function makes of the tables.
listed-Reads :
    {A : Type 0} (msg : Error) (f : Db → List A) (Q : List A → Db → Type 0)
    → ((db : Db) → Q (f db) db)
    → Reads Q (statement msg (λ w. (ok (f w.db), w.db)))
unfolding statement
listed-Reads msg f Q h = record {
  keeps = λ w. ground arith;
  gives = λ w a e. elim (Bool-cases (w.env.fails w.tick)) [
    | inl b ↦ absurd (cc (rw b at e))
    | inr b ↦ subst (λ xs. Q xs w.db) (ok_list (f w.db) a (rw b at e)) (h w.db)
  ];
}

pub grants-Reads :
    (id : String)
    → Reads (λ gs db. Chosen (λ g. g.topic_id == id) db.grants gs) (Topics.list_grants id)
unfolding Topics.list_grants Topics.grants_by_created_at
grants-Reads id = listed-Reads _ _ _ (λ db. sort_by-Chosen _ (λ g. g.topic_id == id) db.grants)

pub documents-Reads :
    (id : String)
    → Reads (λ ds db. Chosen (λ d. d.topic_id == id) db.documents ds) (Documents.list_by_topic id)
unfolding Documents.list_by_topic Documents.documents_by_created_at
documents-Reads id =
    listed-Reads _ _ _ (λ db. sort_by-Chosen _ (λ d. d.topic_id == id) db.documents)

-- The test of a listing of links.
abbrev pub is_listed : String → Bool → Link → Bool
is_listed id back l = if back then touches id l else l.source_chunk_id == id

pub links-Reads :
    (id : String) (back : Bool)
    → Reads (λ ls db. Chosen (is_listed id back) db.links ls) (Links.list_by_chunk id back)
unfolding Links.list_by_chunk Links.links_by_created_at
links-Reads id back = listed-Reads _ _ _ (λ db. sort_by-Chosen _ (is_listed id back) db.links)

pub compactions-Reads :
    (id : String)
    → Reads
        (λ rs db. Chosen (λ r. r.document_id == id) db.compactions rs)
        (Compactions.list_by_document id)
unfolding Compactions.list_by_document Compactions.records_by_created_at
compactions-Reads id =
    listed-Reads _ _ _ (λ db. sort_by-Chosen _ (λ r. r.document_id == id) db.compactions)

pub topic-Reads : (id : String) → Reads (λ t db. find_topic id db.topics ≡ some t) (Topics.get id)
unfolding Topics.get statement
topic-Reads id = record { keeps = λ w. ground arith; gives = λ w a h. ground arith }

pub ruleset list_rules =
    (grants-Reads, documents-Reads, links-Reads, compactions-Reads, topic-Reads)
