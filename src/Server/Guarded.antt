-- ===== src/Server/Guarded.antt =====
-- What the checks at the head of a handler of internal/server guarantee: the tables change only if
-- the caller was allowed the action on the topic when the handler began.
pub mod Reading
pub mod Returning
use creel.Base.{
  String, Bool, true, false, Option, none, some, ◌≡◌, refl, sym, ◌∙◌, ◌⊎◌, inl, inr, arith,
}
use creel.Exec.{Exec, Result, ok, err, guard, or_fail, ◌>>=◌, ◌>>◌, Result-cases}
use creel.Store.Rows.{Principal, Action}
use creel.Store.World.{World, Db}
use creel.Store.Grants.{grant_store}
use creel.Auth.Authorizer.{check}
use creel.Auth.Authorizer.Decision.{Allowed, check_sound, db-check}
use creel.Server.Status.{Code, Handler, authorize, authenticate}

-- Whatever statements fail, either nothing is written, or `P` held of the tables before.
pub record WritesOnlyIf {A : Type 0} (P : Db → Type 0) (m : Handler A) : Type 0 where
  pub at : (w : World) → ((m w).1.db ≡ w.db) ⊎ P w.db

-- The caller is known and may do `a` on the topic.
abbrev pub CallerAllowed : Option Principal → String → Action → Db → Type 0
CallerAllowed p t a db = (q : Principal) × (p ≡ some q) × Allowed db q t a

module _ {A : Type 0} {P : Db → Type 0} where
  pub guard-WritesOnlyIf :
      (b : Bool) (e : Code) (m : Handler A) → WritesOnlyIf P m → WritesOnlyIf P (guard b e >> m)
  guard-WritesOnlyIf true e m h = record { at = h.at }
  guard-WritesOnlyIf false e m h = record { at = λ w. inl refl }

  pub authenticate-WritesOnlyIf :
      (p : Option Principal) (k : Principal → Handler A)
      → ((q : Principal) → p ≡ some q → WritesOnlyIf P (k q))
      → WritesOnlyIf P (authenticate p >>= k)
  authenticate-WritesOnlyIf none k h = record { at = λ w. inl refl }
  authenticate-WritesOnlyIf (some q) k h = record { at = (h q refl).at }

module _ {A : Type 0} where
  pub authorize-WritesOnlyIf :
      (p : Option Principal) (q : Principal) (t : String) (a : Action) (m : Handler A)
      → p ≡ some q
      → WritesOnlyIf (CallerAllowed p t a) (authorize q t a >> m)
  authorize-WritesOnlyIf p q t a m e = record {
    at = λ w. elim (Result-cases (check grant_store q t a w).0) [
      | inl (u, h) ↦ inr (q, e, check_sound q t a w h)
      | inr (x, h) ↦ inl (ground (arith, db-check q t a w))
    ];
  }

pub ruleset guarded_rules = (guard-WritesOnlyIf, authenticate-WritesOnlyIf, authorize-WritesOnlyIf)
