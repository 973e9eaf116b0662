-- ===== src/Store/Configs/Default.antt =====
-- The columns of a table of configurations, as its statements read and write them.
use creel.Base.{ℕ, Bool, List, ◌≡◌}
use creel.Store.World.{Db}
use creel.Store.Configs.{Table}

-- What the columns of a table owe each other.
pub record TableLaws {R : Type 0} (t : Table R) : Type 0 where
  pub rows-set_rows : (rs : List R) (db : Db) → t.rows (t.set_rows rs db) ≡ rs
  pub id-set_is_default : (b : Bool) (r : R) → t.id (t.set_is_default b r) ≡ t.id r
  pub name-set_is_default : (b : Bool) (r : R) → t.name (t.set_is_default b r) ≡ t.name r
  pub id-touch : (n : ℕ) (r : R) → t.id (t.touch n r) ≡ t.id r
  pub is_default-set_is_default : (b : Bool) (r : R) → t.is_default (t.set_is_default b r) ≡ b
  pub is_default-touch : (n : ℕ) (r : R) → t.is_default (t.touch n r) ≡ t.is_default r
