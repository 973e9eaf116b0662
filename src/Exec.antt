-- ===== src/Exec.antt =====
-- Go functions that return a value and an error and act on shared state. What was written before an
-- error stays written, so the state comes back beside the error too.
use creel.Base.{◌≡◌, refl, Bool, true, false, Option, none, some, ◌⊎◌, inl, inr}

pub data Result {ℓ} (E A : Type ℓ) : Type ℓ where
  ok : A → Result E A
  err : E → Result E A

abbrev pub Exec {ℓ} : Type ℓ → Type ℓ → Type ℓ → Type ℓ
Exec S E A = S → Result E A × S

module _ {ℓ} {S E A : Type ℓ} where
  abbrev pub pure : A → Exec S E A
  pure a s = (ok a, s)

  abbrev pub fail : E → Exec S E A
  fail e s = (err e, s)

  -- `if x == nil { return e }`.
  abbrev pub require : Option A → E → Exec S E A
  require none e s = (err e, s)
  require (some a) e s = (ok a, s)

module _ {ℓ} {S E A B : Type ℓ} where
  abbrev pub continue : Result E A → (A → Exec S E B) → Exec S E B
  continue (ok a) f s = f a s
  continue (err e) f s = (err e, s)

  infixl 10 ◌>>=◌ ◌>>◌
  abbrev pub ◌>>=◌ : Exec S E A → (A → Exec S E B) → Exec S E B
  ◌>>=◌ m f s = continue (m s).0 f (m s).1

  abbrev pub ◌>>◌ : Exec S E A → Exec S E B → Exec S E B
  m >> k = m >>= λ _. k

module _ {ℓ} {S E : Type ℓ} where
  -- An early return unless a condition holds.
  abbrev pub guard : Bool → E → Exec S E (Unit {ℓ})
  guard true e s = (ok tt, s)
  guard false e s = (err e, s)

-- `if err != nil { return wrapped }`: the error is replaced by the one that the caller returns.
abbrev replace_error {ℓ} : {E F A : Type ℓ} → F → Result E A → Result F A
replace_error e (ok a) = ok a
replace_error e (err _) = err e

module _ {ℓ} {S E F A : Type ℓ} where
  abbrev pub or_fail : Exec S E A → F → Exec S F A
  or_fail m e s = (replace_error e (m s).0, (m s).1)

module _ {ℓ} {S E A : Type ℓ} where
  -- `_, _ = f()`: the result is dropped.
  abbrev pub ignore : {F : Type ℓ} → Exec S E A → Exec S F (Unit {ℓ})
  ignore m s = (ok tt, (m s).1)

module _ {ℓ} {E A : Type ℓ} where
  pub Result-cases : (r : Result E A) → ((a : A) × (r ≡ ok a)) ⊎ ((e : E) × (r ≡ err e))
  Result-cases (ok a) = inl (a, refl)
  Result-cases (err e) = inr (e, refl)

module _ {ℓ} {S E A B : Type ℓ} where
  -- A chain that succeeds has run its first part, and goes on from where that ended.
  pub bind-ok :
      (m : Exec S E A) (f : A → Exec S E B) (s : S) {b : B}
      → ((m >>= f) s).0 ≡ ok b
      → (a : A) × ((m s).0 ≡ ok a) × ((m >>= f) s ≡ f a (m s).1)
  bind-ok m f s h = bind-ok_result (m s).0 refl
    where
      bind-ok_result :
          (r : Result E A) → (m s).0 ≡ r → (a : A) × ((m s).0 ≡ ok a) × ((m >>= f) s ≡ f a (m s).1)
      bind-ok_result (ok a) e = (a, e, rw (e, ◌>>=◌, continue))
      bind-ok_result (err x) e = absurd (cc (rw (e, ◌>>=◌) at h))
