-- ===== src/Store/Configs/Choice.antt =====
-- The choice of a default (SetDefault of internal/store/*_config.go).
use creel.Base.{
  suc, String, true, false, List, [], ◌∷◌, Option, none, some, ◌≡◌, refl, ap, sym, ◌∙◌, inl, inr,
  arith, Bool-cases, ◌&&◌, not, ◌==◌, eq_of_==, first, exists, update, subst, first-passes,
}
use mathlib.Core.Option
use creel.Exec.{Result, Exec, ok, err, pure, ◌>>=◌, ◌>>◌, Result-cases}
use creel.Store.World.{World, Db, Error, statement}
use creel.Store.Jobs.{begin, commit, rollback_on_error}
use creel.Store.Configs
use creel.Store.Configs.{Table}
use creel.Store.Configs.Default.{TableLaws}

-- What a choice leaves: the row of the ID is the default.
pub record Chosen {R : Type 0} (t : Table R) (id : String) (db' : Db) (c : R) : Type 0 where
  pub chosen_id : t.id c ≡ id
  pub is_chosen : first t.is_default (t.rows db') ≡ some c

pub committed :
    {A : Type 0} (P : Db → Type 0) (m : Exec World Error A) (w : World) (a : A)
    → ((m w).0 ≡ ok a → P (m w).1.db)
    → (rollback_on_error m w).0 ≡ ok a
    → P (rollback_on_error m w).1.db
unfolding rollback_on_error
committed P m w a h r = elim (Result-cases (m w).0) [
  | inl (b, e) ↦ rw e (h (e ∙ rw e at r))
  | inr (x, e) ↦ absurd (cc (rw e at r))
]

rolled_back :
    {A : Type 0} (m : Exec World Error A) (w : World) (e : Error)
    → (rollback_on_error m w).0 ≡ err e
    → (rollback_on_error m w).1.db ≡ w.db
unfolding rollback_on_error
rolled_back m w e r = elim (Result-cases (m w).0) [
  | inl (b, q) ↦ absurd (cc (rw q at r))
  | inr (x, q) ↦ rw q refl
]

module _ {R : Type 0} (t : Table R) (laws : TableLaws t) where
  pub none_default :
      (rs : List R) → exists t.is_default (update t.is_default (t.set_is_default false) rs) ≡ false
  none_default [] = refl
  none_default (r ∷ rs) = elim (Bool-cases (t.is_default r)) [
    | inl b ↦ rw (b, laws.is_default-set_is_default false r) (none_default rs)
    | inr b ↦ rw (b, b) (none_default rs)
  ]

  -- Of rows that are none the default, the first chosen one becomes it.
  first-chosen :
      (w : World) (id : String) (rs : List R) (c : R)
      → exists t.is_default rs ≡ false
      → first (λ r. t.id r == id) rs ≡ some c
      → first t.is_default (update (λ r. t.id r == id) (Configs.chosen t w) rs)
        ≡ some (Configs.chosen t w c)
  first-chosen w id [] c d e = absurd (cc)
  first-chosen w id (r ∷ rs) c d e = elim (Bool-cases (t.id r == id)) [
    | inl b ↦
        let is : t.is_default (Configs.chosen t w r) ≡ true =
          laws.is_default-touch _ (t.set_is_default true r)
          ∙ laws.is_default-set_is_default true r in
        let same : some r ≡ some c = rw b at e in
        rw (b, is) (ap (Option.map (Configs.chosen t w)) same)
    | inr b ↦
        let off : t.is_default r ≡ false = ground arith in
        rw (b, off) (first-chosen w id rs c (ground arith) (rw b at e))
  ]

  -- The end of a choice, from what the marking finds.
  marked-Chosen :
      (msg not_found : Error) (w : World) (id : String) (o : Option R) (c : R)
      → exists t.is_default (t.rows w.db) ≡ false
      → first (λ r. t.id r == id) (t.rows w.db) ≡ o
      → (Configs.marked t msg not_found w id o).0 ≡ ok c
      → Chosen t id (Configs.marked t msg not_found w id o).1 c
  marked-Chosen msg not_found w id none c d e h = absurd (cc)
  marked-Chosen msg not_found w id (some r) c d e h =
      elim (Bool-cases (exists (λ q. not (t.id q == id) && t.is_default q) (t.rows w.db))) [
        | inl b ↦ absurd (cc (rw b at h))
        | inr b ↦
            let same : Configs.chosen t w r ≡ c = ground arith in
            rw b (record {
              chosen_id =
                  ap t.id (sym same)
                  ∙ laws.id-touch _ (t.set_is_default true r)
                  ∙ laws.id-set_is_default true r
                  ∙ eq_of_== (t.id r) id (first-passes (λ r. t.id r == id) (t.rows w.db) r e);
              is_chosen =
                  ap (first t.is_default) (laws.rows-set_rows _ w.db)
                  ∙ first-chosen w id (t.rows w.db) r d e
                  ∙ ap some same;
            })
      ]

  -- The database after BEGIN and the clearing.
  abbrev pub cleared : World → World
  cleared w = record w {
    tick = suc (suc w.tick);
    db = t.set_rows (update t.is_default (t.set_is_default false) (t.rows w.db)) w.db;
  }

  pub mark_default-Chosen :
      (msg not_found : Error) (w : World) (id : String) (c : R)
      → exists t.is_default (t.rows w.db) ≡ false
      → (Configs.mark_default t msg not_found id w).0 ≡ ok c
      → Chosen t id (Configs.mark_default t msg not_found id w).1.db c
  unfolding Configs.mark_default statement
  mark_default-Chosen msg not_found w id c d h = elim (Bool-cases (w.env.fails w.tick)) [
    | inl e ↦ absurd (cc (rw e at h))
    | inr e ↦
        rw e (marked-Chosen msg not_found w id (Configs.find_row t id w.db) c d refl (rw e at h))
  ]

  -- The transaction from the marking on.
  abbrev ending : Exec World Error R → Exec World Error R
  ending m = m >>= λ c. commit "committing transaction" >> pure c

  ending-Chosen :
      (id : String) (m : Exec World Error R) (w : World) (c : R)
      → ((x : R) → (m w).0 ≡ ok x → Chosen t id (m w).1.db x)
      → (ending m w).0 ≡ ok c
      → Chosen t id (ending m w).1.db c
  unfolding commit statement
  ending-Chosen id m w c k h = elim (Result-cases (m w).0) [
    | inr (x, r) ↦ absurd (cc (rw r at h))
    | inl (x, r) ↦ elim (Bool-cases ((m w).1.env.fails (m w).1.tick)) [
      | inl b ↦ absurd (cc (rw (r, b) at h))
      | inr b ↦
          let same : x ≡ c = ground arith in
          rw (r, b) (subst (λ y. Chosen t id (m w).1.db y) same (k x r))
    ]
  ]

  abbrev choice : Error → Error → String → Exec World Error R
  choice msg not_found id = do
    begin
    Configs.clear_default t
    c ← Configs.mark_default t msg not_found id
    commit "committing transaction"
    pure c

  choice-Chosen :
      (msg not_found : Error) (id : String) (w : World) (c : R)
      → (choice msg not_found id w).0 ≡ ok c
      → Chosen t id (choice msg not_found id w).1.db c
  unfolding begin Configs.clear_default statement
  choice-Chosen msg not_found id w c h = elim (Bool-cases (w.env.fails w.tick)) [
    | inl e ↦ absurd (cc (rw e at h))
    | inr e ↦ elim (Bool-cases (w.env.fails (suc w.tick))) [
      | inl f ↦ absurd (cc (rw (e, f) at h))
      | inr f ↦
          let m = Configs.mark_default t msg not_found id in
          let off : exists t.is_default (t.rows (cleared w).db) ≡ false =
            ap (exists t.is_default) (laws.rows-set_rows _ w.db) ∙ none_default (t.rows w.db) in
          rw (e, f)
            (ending-Chosen id m (cleared w) c
              (λ x. mark_default-Chosen msg not_found (cleared w) id x off) (rw (e, f) at h))
    ]
  ]

  -- How a choice of a default may end, on tables.
  pub data Choice (id : String) (db : Db) : Result Error R × World → Type 0 where
    chose : (c : R) (w : World) → Chosen t id w.db c → Choice id db (ok c, w)
    refused : (e : Error) (w : World) → w.db ≡ db → Choice id db (err e, w)

  outcome-Choice :
      (id : String) (db : Db) (r : Result Error R × World)
      → ((c : R) → r.0 ≡ ok c → Chosen t id r.1.db c)
      → ((e : Error) → r.0 ≡ err e → r.1.db ≡ db)
      → Choice id db r
  outcome-Choice id db (ok c, w) h k = chose c w (h c refl)
  outcome-Choice id db (err e, w) h k = refused e w (k e refl)

  -- Choosing a default that succeeds gives the row of the ID, which is then the first row marked as
  -- the default; a choice that fails, at whichever statement of its transaction, leaves the tables as
  -- they were.
  pub set_default_row-Choice :
      (msg not_found : Error) (id : String) (w : World)
      → Choice id w.db (Configs.set_default_row t msg not_found id w)
  unfolding Configs.set_default_row
  set_default_row-Choice msg not_found id w =
      outcome-Choice id w.db _
        (λ c.
          committed (λ db. Chosen t id db c) (choice msg not_found id) w c
            (choice-Chosen msg not_found id w c))
        (rolled_back (choice msg not_found id) w)
