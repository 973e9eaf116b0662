-- ===== src/Worker/Pipeline/Achieves.antt =====
-- Total correctness of the workers' code over a database whose statements succeed.
use creel.Base.{ℕ, String, ◌≡◌, refl, ◌∙◌, Bool, true, false}
use creel.Exec.{Exec, Result, ok, pure, or_fail, ◌>>=◌}
use creel.Store.World.{World, Db, Env, Error, statement}
use creel.Worker.Status.{or_fail_document, guard_document, result}

-- No statement fails.
abbrev pub IsHealthy : Env → Type 0
IsHealthy env = (n : ℕ) → env.fails n ≡ false

-- A run has returned a value with a fact about it, and tables of which `Q` holds.
pub record Done {A : Type 0} (env : Env) (G : A → Type 0) (Q : A → Db → Type 0)
    (r : Result Error A × World) : Type 0 where
  pub value : A
  pub returned : r.0 ≡ ok value
  pub same_env : r.1.env ≡ env
  pub fact : G value
  pub state : Q value r.1.db

pub record Achieves {A : Type 0} (P : Db → Type 0) (G : A → Type 0) (Q : A → Db → Type 0)
    (m : Exec World Error A) : Type 0 where
  pub at : (w : World) → IsHealthy w.env → P w.db → Done w.env G Q (m w)

-- What a statement gives that does not fail.
pub record Gives {A : Type 0} (G : A → Type 0) (Q : A → Db → Type 0) (r : Result Error A × Db)
    : Type 0 where
  pub value : A
  pub returned : r.0 ≡ ok value
  pub fact : G value
  pub state : Q value r.1

module _ {A : Type 0} {P : Db → Type 0} {G : A → Type 0} {Q : A → Db → Type 0} where
  pub statement-Achieves :
      (msg : Error) (f : World → Result Error A × Db)
      → ((w : World) → P w.db → Gives G Q (f w))
      → Achieves P G Q (statement msg f)
  unfolding statement
  statement-Achieves msg f g = record {
    at = λ w healthy p.
        let h = g w p in
        rw (healthy w.tick) (record {
          value = h.value;
          returned = h.returned;
          same_env = refl;
          fact = h.fact;
          state = h.state;
        });
  }

  pub or_fail_document-Achieves :
      (m : Exec World Error A) (id : String) (set_msg msg : Error)
      → Achieves P G Q m
      → Achieves P G Q (or_fail_document m id set_msg msg)
  or_fail_document-Achieves m id set_msg msg h = record {
    at = λ w healthy p.
        let d = h.at w healthy p in
        rw d.returned (record {
          value = d.value;
          returned = refl;
          same_env = d.same_env;
          fact = d.fact;
          state = d.state;
        });
  }

  pub or_fail-Achieves :
      (m : Exec World Error A) (msg : Error) → Achieves P G Q m → Achieves P G Q (or_fail m msg)
  or_fail-Achieves m msg h = record {
    at = λ w healthy p.
        let d = h.at w healthy p in
        record {
          value = d.value;
          returned = rw d.returned refl;
          same_env = d.same_env;
          fact = d.fact;
          state = d.state;
        };
  }

  pub pure-Achieves : (a : A) → G a → ((db : Db) → P db → Q a db) → Achieves P G Q (pure a)
  pure-Achieves a g q = record {
    at = λ w healthy p. record {
      value = a;
      returned = refl;
      same_env = refl;
      fact = g;
      state = q w.db p;
    };
  }

  pub bind-Achieves :
      {B : Type 0} {F : B → Type 0} {R : B → Db → Type 0} {m : Exec World Error A}
      {k : A → Exec World Error B}
      → Achieves P G Q m
      → ((a : A) → G a → Achieves (Q a) F R (k a))
      → Achieves P F R (m >>= k)
  bind-Achieves {m} {k} h c = record {
    at = λ w healthy p.
        let d = h.at w healthy p in
        let e = (c d.value d.fact).at (m w).1 (λ n. rw d.same_env (healthy n)) d.state in
        rw d.returned (record {
          value = e.value;
          returned = e.returned;
          same_env = e.same_env ∙ d.same_env;
          fact = e.fact;
          state = e.state;
        });
  }

  pub before-Achieves :
      {P' : Db → Type 0} {m : Exec World Error A}
      → ((db : Db) → P' db → P db)
      → Achieves P G Q m
      → Achieves P' G Q m
  before-Achieves i h = record { at = λ w healthy p. h.at w healthy (i w.db p) }

  pub after-Achieves :
      {Q' : A → Db → Type 0} {m : Exec World Error A}
      → ((a : A) (db : Db) → G a → Q a db → Q' a db)
      → Achieves P G Q m
      → Achieves P G Q' m
  after-Achieves i h = record {
    at = λ w healthy p.
        let d = h.at w healthy p in
        record {
          value = d.value;
          returned = d.returned;
          same_env = d.same_env;
          fact = d.fact;
          state = i d.value _ d.fact d.state;
        };
  }

pub result-Achieves :
    {A : Type 0} {P : Db → Type 0} (a : A) (r : Result Error A)
    → r ≡ ok a
    → Achieves P (λ b. b ≡ a) (λ _. P) (result r)
result-Achieves a r e = record {
  at = λ w healthy p.
      rw e (record { value = a; returned = refl; same_env = refl; fact = refl; state = p });
}

pub guard-Achieves :
    {P : Db → Type 0} (b : Bool) (id : String) (set_msg msg : Error)
    → b ≡ true
    → Achieves P (λ u. Unit {0}) (λ _. P) (guard_document b id set_msg msg)
guard-Achieves b id set_msg msg e = rw e (pure-Achieves tt tt (λ db p. p))
