-- ===== src/Server/Guarded/Returning.antt =====
-- Handlers that only read: what their answers say of the caller and of the tables.
use creel.Base.{
  String, Bool, true, false, Option, none, some, ◌≡◌, refl, sym, subst, arith, inl, inr, ◌⊎◌, ◌==◌,
  eq_of_==, Bool-cases, if◌then◌else◌,
}
use creel.Exec.{Exec, Result, ok, pure, guard, or_fail, ◌>>=◌, ◌>>◌, Result-cases}
use creel.Store.Rows.{Principal, Action}
use creel.Store.World.{World, Db, Error}
use creel.Store.Reads.{Reads, read_rules, after_reading_or_fail}
use creel.Store.Reads.Lists.{list_rules}
use creel.Store.Grants.{grant_store}
use creel.Auth.Authorizer.{check}
use creel.Auth.Authorizer.Decision.{check_sound, db-check}
use creel.Server.Status.{Code, Handler, authorize, authenticate}
use creel.Server.Guarded.{CallerAllowed}

-- Whatever statements fail, what a run returns and the tables on which it ran are related.
pub record Returns {A : Type 0} (P : A → Db → Type 0) (m : Handler A) : Type 0 where
  pub at : (w : World) (a : A) → (m w).0 ≡ ok a → P a w.db

module _ {A : Type 0} {P : A → Db → Type 0} where
  pub guard-Returns :
      (b : Bool) (e : Code) (m : Handler A) → Returns P m → Returns P (guard b e >> m)
  guard-Returns true e m h = record { at = h.at }
  guard-Returns false e m h = record { at = λ w a x. absurd (ground arith) }

  pub authenticate-Returns :
      (p : Option Principal) (k : Principal → Handler A)
      → ((q : Principal) → p ≡ some q → Returns P (k q))
      → Returns P (authenticate p >>= k)
  authenticate-Returns none k h = record { at = λ w a x. absurd (ground arith) }
  authenticate-Returns (some q) k h = record { at = (h q refl).at }

  pub authorize-Returns :
      (p : Option Principal) (q : Principal) (t : String) (a : Action) (m : Handler A)
      → p ≡ some q
      → Returns P m
      → Returns (λ b db. CallerAllowed p t a db × P b db) (authorize q t a >> m)
  authorize-Returns p q t a m e r = record {
    at = λ w b x. elim (Result-cases (check grant_store q t a w).0) [
      | inl (u, h) ↦ (
        (q, e, check_sound q t a w h),
        subst (P b) (db-check q t a w) (r.at (check grant_store q t a w).1 b (ground arith)),
      )
      | inr (y, h) ↦ absurd (ground arith)
    ];
  }

module _ {A B : Type 0} where
  pub read-Returns :
      {Q : A → Db → Type 0} {P : A → B → Db → Type 0} (e : Code) (m : Exec World Error A)
      (k : A → Handler B)
      → Reads Q m
      → ((a : A) → Returns (P a) (k a))
      → Returns (λ b db. (a : A) × Q a db × P a b db) (or_fail m e >>= k)
  read-Returns {Q} {P} e m k r h = record {
    at = λ w b x.
        let (a, q, v, s, y) = after_reading_or_fail w.db m e k w b r refl x in
        (a, q, subst (P a b) s ((h a).at v b y));
  }

  -- A chunk with what else is found out about it.
  pub pair-Returns :
      (a : A) (m : Handler B) → Returns {A = A × B} (λ r db. r.0 ≡ a) (m >>= λ b. pure (a, b))
  pair-Returns a m = record {
    at = λ w r x. elim (Result-cases (m w).0) [
      | inl (b, h) ↦ same_pair a (a, b) r refl (rw h at x)
      | inr (y, h) ↦ absurd (cc (rw h at x))
    ];
  }
    where
      same_pair :
          (a : A) (r s : A × B) → r.0 ≡ a → ◌≡◌ {A = Result Code (A × B)} (ok r) (ok s) → s.0 ≡ a
      same_pair a r s h e = cc

module _ {A : Type 0} where
  same_value : (a b : A) → ◌≡◌ {A = Result Code A} (ok a) (ok b) → a ≡ b
  same_value a b x = cc

  pub last_read-Returns :
      {Q : A → Db → Type 0} (e : Code) (m : Exec World Error A)
      → Reads Q m
      → Returns Q (or_fail m e)
  last_read-Returns {Q} e m r = record {
    at = λ w a x. elim (Result-cases (m w).0) [
      | inl (b, h) ↦ subst (λ c. Q c w.db) (same_value b a (rw h at x)) (r.gives w b h)
      | inr (y, h) ↦ absurd (cc (rw h at x))
    ];
  }

  pub pure-Returns : (a : A) → Returns (λ b db. b ≡ a) (pure a)
  pure-Returns a = record { at = λ w b x. sym (same_value a b x) }

  -- Two ways to answer, by a test.
  pub choice-Returns :
      {P Q : A → Db → Type 0} (b : Bool) (m n : Handler A)
      → Returns P m
      → Returns Q n
      → Returns (λ a db. ((b ≡ true) × P a db) ⊎ ((b ≡ false) × Q a db)) (if b then m else n)
  choice-Returns true m n h k = record { at = λ w a x. inl (refl, h.at w a x) }
  choice-Returns false m n h k = record { at = λ w a x. inr (refl, k.at w a x) }

  pub owner-Returns :
      {P : A → Db → Type 0} (p : Option Principal) (q : Principal) (owner : String) (e : Code)
      (m : Handler A)
      → p ≡ some q
      → Returns P m
      → Returns
          (λ a db. ((r : Principal) × (p ≡ some r) × (owner ≡ r.id)) × P a db)
          (guard (owner == q.id) e >> m)
  owner-Returns p q owner e m h k = record {
    at = λ w a x. elim (Bool-cases (owner == q.id)) [
      | inl c ↦ ((q, h, eq_of_== owner q.id c), k.at w a (rw c at x))
      | inr c ↦ absurd (ground arith)
    ];
  }

pub ruleset returning_rules = (
  guard-Returns, authenticate-Returns, authorize-Returns, read-Returns, pair-Returns,
  last_read-Returns, pure-Returns, choice-Returns, owner-Returns, read_rules, list_rules,
)
