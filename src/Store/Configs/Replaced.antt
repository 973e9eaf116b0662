-- ===== src/Store/Configs/Replaced.antt =====
-- A new default replaces the old one (Create, SetDefault and GetDefault of internal/store/*_config.go).
use creel.Base.{
  ℕ, suc, String, Bool, true, false, List, [], ◌∷◌, ◌++◌, some, ◌≡◌, refl, ap, ◌∙◌, inl, inr, arith,
  Bool-cases, not, ◌==◌, ◌&&◌, first, exists, update, subst,
}
use creel.Exec.{ok, Exec}
use creel.Store.World.{World, Error, statement}
use creel.Store.Jobs.{begin, commit, rollback_on_error}
use creel.Store.Configs
use creel.Store.Configs.{Table}
use creel.Store.Configs.Default.{TableLaws}
use creel.Store.Configs.Choice.{Chosen, none_default, cleared, mark_default-Chosen}

-- What a write leaves behind: it gave a row, and GetDefault returns that row.
pub record IsNewDefault {R : Type 0} (t : Table R) (m : Exec World Error R) (w : World) (c : R)
    : Type 0 where
  pub succeeds : (m w).0 ≡ ok c
  pub is_default : (text : Error) → (Configs.get_default_row t text (m w).1).0 ≡ ok (some c)

module _ {R : Type 0} (t : Table R) (laws : TableLaws t) where
  cleared_column :
      (column : R → String) (value : String) (rs : List R)
      → ((b : Bool) (r : R) → column (t.set_is_default b r) ≡ column r)
      → exists (λ q. column q == value) (update t.is_default (t.set_is_default false) rs)
        ≡ exists (λ q. column q == value) rs
  cleared_column column value [] keep = refl
  cleared_column column value (r ∷ rs) keep = elim (Bool-cases (t.is_default r)) [
    | inl b ↦ rw (b, keep false r, cleared_column column value rs keep) refl
    | inr b ↦ rw (b, cleared_column column value rs keep) refl
  ]

  first_append :
      (rs : List R) (r : R)
      → exists t.is_default rs ≡ false
      → t.is_default r ≡ true
      → first t.is_default (rs ++ r ∷ []) ≡ some r
  first_append [] r d e = rw e refl
  first_append (q ∷ rs) r d e =
      let off : t.is_default q ≡ false = ground arith in rw off (first_append rs r (ground arith) e)

  -- The INSERT of a default into a table without one.
  abbrev with_row : (World → R) → World → World
  with_row make w = record w {
    tick = suc w.tick;
    db = t.set_rows (t.rows w.db ++ make w ∷ []) w.db;
  }

  inserted :
      (msg : Error) (make : World → R) (w : World)
      → w.env.fails w.tick ≡ false
      → exists (λ q. t.name q == t.name (make w)) (t.rows w.db) ≡ false
      → exists t.is_default (t.rows w.db) ≡ false
      → t.has_references w.db (make w) ≡ true
      → Configs.insert_row t msg make w ≡ (ok (make w), with_row make w)
  unfolding Configs.insert_row statement
  inserted msg make w e n old h = elim (Bool-cases (t.is_default (make w))) [
    | inl d ↦ rw (e, n, d, old, h) refl
    | inr d ↦ rw (e, n, d, h) refl
  ]

  abbrev after_commit : World → World
  after_commit w = record w { tick = suc w.tick }

  created :
      (msg : Error) (make : World → R) (w : World)
      → ((n : ℕ) → w.env.fails n ≡ false)
      → Configs.insert_row t msg make (cleared t laws w)
        ≡ (ok (make (cleared t laws w)), with_row make (cleared t laws w))
      → Configs.create_row t msg true make w
        ≡ (ok (make (cleared t laws w)), after_commit (with_row make (cleared t laws w)))
  unfolding Configs.create_row Configs.clear_default begin commit rollback_on_error statement
  created msg make w healthy q =
      rw (healthy w.tick, healthy (suc w.tick), q, healthy (suc (suc (suc w.tick)))) refl

  first_found : (p : R → Bool) (rs : List R) → exists p rs ≡ true → (r : R) × (first p rs ≡ some r)
  first_found p [] h = absurd (cc)
  first_found p (r ∷ rs) h = elim (Bool-cases (p r)) [
    | inl b ↦ (r, rw b refl)
    | inr b ↦ let (q, e) = first_found p rs (rw b at h) in (q, rw b e)
  ]

  no_other :
      (id : String) (rs : List R)
      → exists t.is_default rs ≡ false
      → exists (λ q. not (t.id q == id) && t.is_default q) rs ≡ false
  no_other id [] h = refl
  no_other id (r ∷ rs) h =
      let off : t.is_default r ≡ false = ground arith in
      let rest = no_other id rs (ground arith) in ground (arith, off, rest)

  marking :
      (msg not_found : Error) (id : String) (w : World) (r : R)
      → w.env.fails w.tick ≡ false
      → exists t.is_default (t.rows w.db) ≡ false
      → first (λ q. t.id q == id) (t.rows w.db) ≡ some r
      → Configs.mark_default t msg not_found id w ≡ (
        ok (Configs.chosen t w r),
        record w {
          tick = suc w.tick;
          db = t.set_rows (update (λ q. t.id q == id) (Configs.chosen t w) (t.rows w.db)) w.db;
        },
      )
  unfolding Configs.mark_default statement
  marking msg not_found id w r e old found = rw (e, found, no_other id (t.rows w.db) old) refl

  choosing :
      (msg not_found : Error) (id : String) (w w' : World) (c : R)
      → ((n : ℕ) → w.env.fails n ≡ false)
      → w'.env ≡ w.env
      → Configs.mark_default t msg not_found id (cleared t laws w) ≡ (ok c, w')
      → Configs.set_default_row t msg not_found id w ≡ (ok c, after_commit w')
  unfolding Configs.set_default_row Configs.clear_default begin commit rollback_on_error statement
  choosing msg not_found id w w' c healthy same q =
      let last : w'.env.fails w'.tick ≡ false =
        ap (λ env. env.fails w'.tick) same ∙ healthy w'.tick in
      rw (healthy w.tick, healthy (suc w.tick), q, last) refl

  -- On a database whose statements succeed, `SetDefault` of a row that is there succeeds whichever row
  -- was the default, and `GetDefault` then returns the row that it returned, which has the ID.
  pub set_default_row-IsNewDefault :
      (msg not_found : Error) (id : String) (w : World)
      → ((n : ℕ) → w.env.fails n ≡ false)
      → exists (λ q. t.id q == id) (t.rows w.db) ≡ true
      → (c : R) × (t.id c ≡ id) × IsNewDefault t (Configs.set_default_row t msg not_found id) w c
  unfolding Configs.get_default_row statement
  set_default_row-IsNewDefault msg not_found id w healthy there =
      let x = cleared t laws w in
      let rows =
        laws.rows-set_rows (update t.is_default (t.set_is_default false) (t.rows w.db)) w.db in
      let old : exists t.is_default (t.rows x.db) ≡ false =
        ap (exists t.is_default) rows ∙ none_default t laws (t.rows w.db) in
      let found : exists (λ q. t.id q == id) (t.rows x.db) ≡ true =
        ap (exists (λ q. t.id q == id)) rows
        ∙ cleared_column t.id id (t.rows w.db) laws.id-set_is_default
        ∙ there in
      let (r, e) = first_found (λ q. t.id q == id) (t.rows x.db) found in
      let run = marking msg not_found id x r (healthy x.tick) old e in
      let c = Configs.chosen t x r in
      let marked = mark_default-Chosen t laws msg not_found x id c old (ap (λ o. o.0) run) in
      let now = subst (λ o. Chosen t id o.1.db c) run marked in
      let whole = choosing msg not_found id w _ c healthy refl run in
      (
        c,
        now.chosen_id,
        record {
          succeeds = ap (λ o. o.0) whole;
          is_default = λ text. rw (whole, healthy (suc (suc x.tick))) (ap ok now.is_chosen);
        },
      )

  -- On a database whose statements succeed, `Create` with is_default, where no row has the name of the
  -- new one and the rows that it references are there, succeeds whichever row was the default, and
  -- `GetDefault` then returns the new row.
  pub create_row-IsNewDefault :
      (msg : Error) (make : World → R) (w : World)
      → ((n : ℕ) → w.env.fails n ≡ false)
      → t.is_default (make (cleared t laws w)) ≡ true
      → exists (λ q. t.name q == t.name (make (cleared t laws w))) (t.rows w.db) ≡ false
      → t.has_references (cleared t laws w).db (make (cleared t laws w)) ≡ true
      → IsNewDefault t (Configs.create_row t msg true make) w (make (cleared t laws w))
  unfolding Configs.get_default_row statement
  create_row-IsNewDefault msg make w healthy d n h =
      let rows =
        laws.rows-set_rows (update t.is_default (t.set_is_default false) (t.rows w.db)) w.db in
      let x = cleared t laws w in
      let r = make x in
      let old : exists t.is_default (t.rows x.db) ≡ false =
        ap (exists t.is_default) rows ∙ none_default t laws (t.rows w.db) in
      let fresh : exists (λ q. t.name q == t.name r) (t.rows x.db) ≡ false =
        ap (exists (λ q. t.name q == t.name r)) rows
        ∙ cleared_column t.name (t.name r) (t.rows w.db) laws.name-set_is_default
        ∙ n in
      let run = created msg make w healthy (inserted msg make x (healthy x.tick) fresh old h) in
      record {
        succeeds = ap (λ o. o.0) run;
        is_default = λ text.
            rw (run, healthy (suc (suc x.tick)), laws.rows-set_rows (t.rows x.db ++ r ∷ []) x.db)
              (ap ok (first_append (t.rows x.db) r old d));
      }
