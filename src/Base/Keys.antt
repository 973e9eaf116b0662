-- ===== src/Base/Keys.antt =====
-- Tables in which no two rows have one key.
use mathlib.Core.Path.{◌≡◌, sym, subst, ◌∙◌}
use mathlib.Core.Logic.{inl, inr}
use mathlib.Core.Bool.{Bool, true, ◌&&◌}
use mathlib.Core.Option.{some}
use mathlib.Core.List.{List, [], ◌∷◌, map, Memᴰ}
use native.Mathlib.Omega.{arith}
use Prim.Native.String.{String}
use creel.Base.Equality.{◌==◌, ==_refl, eq_of_==}
use creel.Base.Tests.{Bool-cases}
use creel.Base.Lists.{first, exists, exists-Memᴰ, contains, Distinct}

module _ {A : Type 0} (key : A → String) where
  contains-key : (xs : List A) (x : A) → Memᴰ x xs → contains (map key xs) (key x) ≡ true
  contains-key [] x m = elim m [ ]
  contains-key (y ∷ xs) x (Memᴰ.head h) = rw h (ground (arith, ==_refl (key y)))
  contains-key (y ∷ xs) x (Memᴰ.tail m) = ground (arith, contains-key xs x m)

  -- A row is the first one with its key.
  pub first-key :
      (xs : List A) (x : A)
      → Distinct (map key xs)
      → Memᴰ x xs
      → first (λ y. key y == key x) xs ≡ some x
  first-key [] x d m = elim m [ ]
  first-key (y ∷ xs) x (n, d) (Memᴰ.head h) = rw h (ground (arith, ==_refl (key y)))
  first-key (y ∷ xs) x (n, d) (Memᴰ.tail m) = elim (Bool-cases (key y == key x)) [
    | inl e ↦ absurd (ground (arith, contains-key xs x m, eq_of_== (key y) (key x) e))
    | inr e ↦ ground (arith, first-key xs x d m)
  ]

  -- The row that a lookup by key finds has what some row with that key has.
  pub found-key :
      (p : A → Bool) (xs : List A) (s : String) (y : A)
      → Distinct (map key xs)
      → exists (λ x. key x == s && p x) xs ≡ true
      → first (λ x. key x == s) xs ≡ some y
      → Memᴰ y xs × (p y ≡ true)
  found-key p xs s y d h e =
      let (x, m, q) = exists-Memᴰ (λ z. key z == s && p z) xs h in
      let k : key x ≡ s = eq_of_== (key x) s (ground arith) in
      let same : some x ≡ some y =
        sym (subst (λ t. first (λ z. key z == t) xs ≡ some x) k (first-key xs x d m)) ∙ e in
      let found : x ≡ y = cc in
      (subst (λ z. Memᴰ z xs) found m, subst (λ z. p z ≡ true) found (ground arith))
