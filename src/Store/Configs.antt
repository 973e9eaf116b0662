-- ===== src/Store/Configs.antt =====
-- What the five stores of configurations in internal/store/*_config.go have in common, over a table
-- of rows that have a unique name and of which one at most is the default.
pub mod ApiKeys
pub mod Llms
pub mod Embeddings
pub mod Prompts
pub mod Backends
pub mod Default
pub mod Choice
pub mod Laws
pub mod Replaced
pub mod Sealed
use creel.Base.{
  ℕ, String, Bool, true, false, List, [], ◌∷◌, ◌++◌, Option, none, some, ◌&&◌, ◌||◌, not, leb, ◌==◌,
  select, first, exists, update, if◌then◌else◌,
}
use creel.Exec.{Exec, Result, ok, err, pure, ◌>>=◌, ◌>>◌}
use creel.Store.World.{World, Db, Error, statement, row_or}
use creel.Store.Jobs.{begin, commit, rollback_on_error}

-- A table: its rows in the database, and its columns.
pub record Table (R : Type 0) : Type 0 where
  pub rows : Db → List R
  pub set_rows : List R → Db → Db
  pub id : R → String
  pub name : R → String
  pub is_default : R → Bool
  pub created_at : R → ℕ
  pub set_is_default : Bool → R → R
  pub touch : ℕ → R → R
  -- The rows that a row references are there.
  pub has_references : Db → R → Bool
  -- What the deletion of a row does to the rows that reference it; `none` where it is refused.
  pub release : String → Db → Option Db

module _ {R : Type 0} (t : Table R) where
  -- UPDATE … SET is_default = false WHERE is_default = true.
  unfoldable pub clear_default : Exec World Error (Unit {0})
  unfolding statement
  clear_default =
      statement "clearing previous default"
        λ w. (ok tt, t.set_rows (update t.is_default (t.set_is_default false) (t.rows w.db)) w.db)

  abbrev pub default_taken : R → Db → Bool
  default_taken r db = t.is_default r && exists t.is_default (t.rows db)

  -- The INSERT: names and the default are unique.
  unfoldable pub insert_row : Error → (World → R) → Exec World Error R
  unfolding statement
  insert_row msg make = statement msg λ w.
      let r = make w in
      if exists (λ q. t.name q == t.name r) (t.rows w.db)
        || (default_taken r w.db || not (t.has_references w.db r))
      then (err msg, w.db)
      else (ok r, t.set_rows (t.rows w.db ++ r ∷ []) w.db)

  abbrev pub clear_if : Bool → Exec World Error (Unit {0})
  clear_if b = if b then clear_default else pure tt

  -- `Create`, in a transaction.
  unfoldable pub create_row : Error → Bool → (World → R) → Exec World Error R
  unfolding clear_default insert_row begin commit rollback_on_error
  create_row msg is_default make = rollback_on_error (do
    begin
    clear_if is_default
    c ← insert_row msg make
    commit "committing transaction"
    pure c)

  abbrev pub find_row : String → Db → Option R
  find_row id db = first (λ r. t.id r == id) (t.rows db)

  unfoldable pub get_row : Error → Error → String → Exec World Error R
  unfolding statement
  get_row msg not_found id = statement msg λ w. (row_or not_found (find_row id w.db), w.db)

  -- ORDER BY created_at.
  abbrev insert_by_time : R → List R → List R
  insert_by_time r [] = r ∷ []
  insert_by_time r (q ∷ qs) =
      let rest = insert_by_time r qs in
      if leb (t.created_at r) (t.created_at q) then r ∷ q ∷ qs else q ∷ rest

  unfoldable pub rows_by_time : List R → List R
  rows_by_time [] = []
  rows_by_time (r ∷ rs) = insert_by_time r (rows_by_time rs)

  unfoldable pub list_rows : Error → Exec World Error (List R)
  unfolding statement rows_by_time
  list_rows msg = statement msg λ w. (ok (rows_by_time (t.rows w.db)), w.db)

  abbrev pub name_taken : String → R → Db → Bool
  name_taken id r db = exists (λ q. not (t.id q == id) && t.name q == t.name r) (t.rows db)

  abbrev pub changed : Error → Error → Db → String → (R → R) → Option R → Result Error R × Db
  changed msg not_found db id f none = (err not_found, db)
  changed msg not_found db id f (some r) =
      if name_taken id (f r) db || not (t.has_references db (f r))
      then (err msg, db)
      else (ok (f r), t.set_rows (update (λ q. t.id q == id) f (t.rows db)) db)

  -- `Update`: the columns that it sets.
  unfoldable pub update_row : Error → Error → String → (R → R) → Exec World Error R
  unfolding statement
  update_row msg not_found id f =
      statement msg λ w.
        changed msg not_found w.db id (λ r. t.touch (w.env.now w.tick) (f r)) (find_row id w.db)

  abbrev pub removed : Error → String → Db → Option Db → Result Error (Unit {0}) × Db
  removed msg id db none = (err msg, db)
  removed msg id db (some db') =
      (ok tt, t.set_rows (select (λ r. not (t.id r == id)) (t.rows db')) db')

  -- `Delete`.
  unfoldable pub delete_row : Error → Error → String → Exec World Error (Unit {0})
  unfolding statement
  delete_row msg not_found id = statement msg λ w.
      if exists (λ r. t.id r == id) (t.rows w.db)
      then removed msg id w.db (t.release id w.db)
      else (err not_found, w.db)

  abbrev pub chosen : World → R → R
  chosen w r = t.touch (w.env.now w.tick) (t.set_is_default true r)

  abbrev pub marked : Error → Error → World → String → Option R → Result Error R × Db
  marked msg not_found w id none = (err not_found, w.db)
  marked msg not_found w id (some r) =
      if exists (λ q. not (t.id q == id) && t.is_default q) (t.rows w.db)
      then (err msg, w.db)
      else (ok (chosen w r), t.set_rows (update (λ q. t.id q == id) (chosen w) (t.rows w.db)) w.db)

  unfoldable pub mark_default : Error → Error → String → Exec World Error R
  unfolding statement
  mark_default msg not_found id = statement msg λ w. marked msg not_found w id (find_row id w.db)

  -- `SetDefault`, in a transaction.
  unfoldable pub set_default_row : Error → Error → String → Exec World Error R
  unfolding clear_default mark_default begin commit rollback_on_error
  set_default_row msg not_found id = rollback_on_error (do
    begin
    clear_default
    c ← mark_default msg not_found id
    commit "committing transaction"
    pure c)

  -- `GetDefault`.
  unfoldable pub get_default_row : Error → Exec World Error (Option R)
  unfolding statement
  get_default_row msg = statement msg λ w. (ok (first t.is_default (t.rows w.db)), w.db)

-- COALESCE(NULLIF(v, ''), old).
abbrev pub or_old : String → String → String
or_old v old = if v == "" then old else v
