-- ===== src/Base/Lists.antt =====
-- Lists measured by native numbers, and the Boolean queries that stand for SQL's WHERE.
use Prim.Native.Nat.{ℕ, zero, suc, ◌+◌, ◌-◌, min}
use Prim.Native.String.{String}
use mathlib.Core.Path.{◌≡◌, refl, ap, subst}
use mathlib.Core.Bool.{Bool, true, false, ◌||◌}
use mathlib.Core.Logic.{◌⊎◌, inl, inr}
use mathlib.Core.Option
use mathlib.Core.Option.{Option, none, some}
use mathlib.Core.List.{List, [], ◌∷◌, ◌++◌, Memᴰ}
use native.Mathlib.Omega.{arith}
use creel.Base.Tests.{if◌then◌else◌, Bool-cases}
use creel.Base.Equality.{◌==◌}

module _ {ℓ} {A : Type ℓ} where
  abbrev pub length : List A → ℕ
  length [] = 0
  length (x ∷ xs) = suc (length xs)

  abbrev pub take : ℕ → List A → List A
  take zero xs = []
  take (suc n) [] = []
  take (suc n) (x ∷ xs) = x ∷ take n xs

  abbrev pub drop : ℕ → List A → List A
  drop zero xs = xs
  drop (suc n) [] = []
  drop (suc n) (x ∷ xs) = drop n xs

  abbrev pub get_elem? : List A → ℕ → Option A
  get_elem? [] i = none
  get_elem? (x ∷ xs) zero = some x
  get_elem? (x ∷ xs) (suc i) = get_elem? xs i

  -- `len(xs) == 0`.
  abbrev pub is_empty : List A → Bool
  is_empty [] = true
  is_empty (x ∷ xs) = false

  -- The rows that pass a test.
  abbrev pub select : (A → Bool) → List A → List A
  select p [] = []
  select p (x ∷ xs) = let rest = select p xs in if p x then x ∷ rest else rest

  -- The first row that passes a test.
  abbrev pub first : (A → Bool) → List A → Option A
  first p [] = none
  first p (x ∷ xs) = let rest = first p xs in if p x then some x else rest

  -- Some row passes a test.
  abbrev pub exists : (A → Bool) → List A → Bool
  exists p [] = false
  exists p (x ∷ xs) = p x || exists p xs

  -- UPDATE … SET f WHERE p.
  abbrev pub update : (A → Bool) → (A → A) → List A → List A
  update p f [] = []
  update p f (x ∷ xs) = (if p x then f x else x) ∷ update p f xs

  pub length-append : (xs ys : List A) → length (xs ++ ys) ≡ length xs + length ys
  length-append [] ys = omega arith
  length-append (x ∷ xs) ys = omega (arith, length-append xs ys)

  pub length-take : (n : ℕ) (xs : List A) → length (take n xs) ≡ min n (length xs)
  length-take zero xs = omega arith
  length-take (suc n) [] = omega arith
  length-take (suc n) (x ∷ xs) = omega (arith, length-take n xs)

  pub length-drop : (n : ℕ) (xs : List A) → length (drop n xs) ≡ length xs - n
  length-drop zero xs = omega arith
  length-drop (suc n) [] = omega arith
  length-drop (suc n) (x ∷ xs) = omega (arith, length-drop n xs)

  pub take-append-drop : (n : ℕ) (xs : List A) → take n xs ++ drop n xs ≡ xs
  take-append-drop zero xs = refl
  take-append-drop (suc n) [] = refl
  take-append-drop (suc n) (x ∷ xs) = ap (◌∷◌ x) (take-append-drop n xs)

  pub exists-append :
      (p : A → Bool) (xs ys : List A) → exists p (xs ++ ys) ≡ (exists p xs || exists p ys)
  exists-append p [] ys = refl
  exists-append p (x ∷ xs) ys = ground (arith, exists-append p xs ys)

-- `id = ANY(ids)`, or membership in a Go map used as a set.
abbrev pub contains : List String → String → Bool
contains [] s = false
contains (x ∷ xs) s = x == s || contains xs s

pub contains-append :
    (xs ys : List String) (s : String) → contains (xs ++ ys) s ≡ (contains xs s || contains ys s)
contains-append [] ys s = refl
contains-append (x ∷ xs) ys s = ground (arith, contains-append xs ys s)

module _ {ℓ} {A : Type ℓ} where
  -- A row that a test finds: what `exists` promises, with the row.
  pub Memᴰ-exists :
      (p : A → Bool) (xs : List A) (x : A) → Memᴰ x xs → p x ≡ true → exists p xs ≡ true
  Memᴰ-exists p [] y m h = elim m [ ]
  Memᴰ-exists p (x ∷ xs) y (Memᴰ.head e) h = rw (← e) (rw h)
  Memᴰ-exists p (x ∷ xs) y (Memᴰ.tail m) h = ground (arith, Memᴰ-exists p xs y m h)

  pub exists-Memᴰ :
      (p : A → Bool) (xs : List A) → exists p xs ≡ true → (x : A) × Memᴰ x xs × (p x ≡ true)
  exists-Memᴰ p [] h = cc
  exists-Memᴰ p (x ∷ xs) h = elim (Bool-cases (p x)) [
    | inl e ↦ (x, Memᴰ.head refl, e)
    | inr e ↦
        let r : (y : A) × Memᴰ y xs × (p y ≡ true) = exists-Memᴰ p xs (ground arith) in
        (r.0, Memᴰ.tail r.1, r.2)
  ]

-- No string occurs twice: a primary key, or what a Go map makes of its keys.
abbrev pub Distinct : List String → Type 0
Distinct [] = Unit {0}
Distinct (x ∷ xs) = (contains xs x ≡ false) × Distinct xs

pub append-Distinct :
    (xs : List String) (s : String) → Distinct xs → contains xs s ≡ false → Distinct (xs ++ s ∷ [])
append-Distinct [] s d h = (refl, tt)
append-Distinct (x ∷ xs) s d h =
    (ground (arith, contains-append xs (s ∷ []) x), append-Distinct xs s d.1 (ground arith))

module _ {ℓ} {A : Type ℓ} where
  Memᴰ-if :
      (b : Bool) {x y : A} {zs : List A}
      → Memᴰ x (if b then y ∷ zs else zs)
      → ((x ≡ y) × (b ≡ true)) ⊎ Memᴰ x zs
  Memᴰ-if true (Memᴰ.head h) = inl (h, refl)
  Memᴰ-if true (Memᴰ.tail t) = inr t
  Memᴰ-if false m = inr m

  pub select-Memᴰ :
      (p : A → Bool) (xs : List A) (x : A) → Memᴰ x (select p xs) → Memᴰ x xs × (p x ≡ true)
  select-Memᴰ p [] x m = elim m [ ]
  select-Memᴰ p (y ∷ xs) x m = elim (Memᴰ-if (p y) m) [
    | inl (h, e) ↦ (Memᴰ.head h, rw h e)
    | inr t ↦ let r = select-Memᴰ p xs x t in (Memᴰ.tail r.0, r.1)
  ]

  pub Memᴰ-select :
      (p : A → Bool) (xs : List A) (x : A) → Memᴰ x xs → p x ≡ true → Memᴰ x (select p xs)
  Memᴰ-select p [] x m e = elim m [ ]
  Memᴰ-select p (y ∷ xs) x (Memᴰ.head h) e = rw (← h) (rw e (Memᴰ.head refl))
  Memᴰ-select p (y ∷ xs) x (Memᴰ.tail m) e = keep (p y) (Memᴰ-select p xs x m e)
    where
      keep : (b : Bool) → Memᴰ x (select p xs) → Memᴰ x (if b then y ∷ select p xs else select p xs)
      keep true h = Memᴰ.tail h
      keep false h = h

  -- A row after an UPDATE comes from a row before it.
  pub update-Memᴰ :
      (p : A → Bool) (f : A → A) (xs : List A) (x : A)
      → Memᴰ x (update p f xs)
      → (y : A) × Memᴰ y xs × (x ≡ (if p y then f y else y))
  update-Memᴰ p f [] x m = elim m [ ]
  update-Memᴰ p f (y ∷ xs) x (Memᴰ.head h) = (y, Memᴰ.head refl, h)
  update-Memᴰ p f (y ∷ xs) x (Memᴰ.tail m) =
      let (z, n, e) = update-Memᴰ p f xs x m in (z, Memᴰ.tail n, e)

  -- A lookup after an UPDATE of the rows that it looks for, which keeps them among those.
  pub first-update :
      (p : A → Bool) (f : A → A)
      → ((x : A) → p (f x) ≡ p x)
      → (xs : List A) → first p (update p f xs) ≡ Option.map f (first p xs)
  first-update p f keep [] = refl
  first-update p f keep (x ∷ xs) = ground (arith, keep x, first-update p f keep xs)

  -- A row that a lookup finds passes its test.
  pub first-passes : (p : A → Bool) (xs : List A) (x : A) → first p xs ≡ some x → p x ≡ true
  first-passes p [] x h = cc
  first-passes p (y ∷ xs) x h = elim (Bool-cases (p y)) [
    | inl e ↦ let same : y ≡ x = ground arith in subst (λ z. p z ≡ true) same e
    | inr e ↦ first-passes p xs x (ground arith)
  ]

  pub either-Memᴰ : (xs ys : List A) (x : A) → Memᴰ x (xs ++ ys) → Memᴰ x xs ⊎ Memᴰ x ys
  either-Memᴰ [] ys x m = inr m
  either-Memᴰ (z ∷ xs) ys x (Memᴰ.head h) = inl (Memᴰ.head h)
  either-Memᴰ (z ∷ xs) ys x (Memᴰ.tail m) = elim (either-Memᴰ xs ys x m) [
    | inl n ↦ inl (Memᴰ.tail n)
    | inr n ↦ inr n
  ]

  pub append-Memᴰ : (xs : List A) (y x : A) → Memᴰ x (xs ++ y ∷ []) → Memᴰ x xs ⊎ (x ≡ y)
  append-Memᴰ [] y x (Memᴰ.head h) = inr h
  append-Memᴰ [] y x (Memᴰ.tail m) = elim m [ ]
  append-Memᴰ (z ∷ xs) y x (Memᴰ.head h) = inl (Memᴰ.head h)
  append-Memᴰ (z ∷ xs) y x (Memᴰ.tail m) = elim (append-Memᴰ xs y x m) [
    | inl n ↦ inl (Memᴰ.tail n)
    | inr e ↦ inr e
  ]

  pub Memᴰ-first :
      (p : A → Bool) (xs : List A) (x : A)
      → Memᴰ x xs
      → p x ≡ true
      → (y : A) × (first p xs ≡ some y) × (p y ≡ true)
  Memᴰ-first p [] x m e = elim m [ ]
  Memᴰ-first p (y ∷ xs) x m e = elim (Bool-cases (p y)) [
    | inl q ↦ (y, ground arith, q)
    | inr q ↦
        let n : Memᴰ x xs = later m q in
        let (z, f, h) = Memᴰ-first p xs x n e in (z, ground arith, h)
  ]
    where
      later : Memᴰ x (y ∷ xs) → p y ≡ false → Memᴰ x xs
      later (Memᴰ.head h) q = absurd (ground (arith, ap p h))
      later (Memᴰ.tail n) q = n

  -- If a row is found, then after the UPDATE some row has what every updated row has.
  pub exists-update :
      (p q : A → Bool) (f : A → A) (xs : List A) (x : A)
      → first p xs ≡ some x
      → ((y : A) → p y ≡ true → q (f y) ≡ true)
      → exists q (update p f xs) ≡ true
  exists-update p q f [] x e h = cc
  exists-update p q f (y ∷ xs) x e h = elim (Bool-cases (p y)) [
    | inl b ↦ ground (arith, h y b)
    | inr b ↦ ground (arith, exists-update p q f xs x (ground arith) h)
  ]

  pub exists-select_none :
      (p q : A → Bool) (xs : List A)
      → ((x : A) → q x ≡ true → p x ≡ false)
      → exists q (select p xs) ≡ false
  exists-select_none p q [] h = refl
  exists-select_none p q (x ∷ xs) h = elim (Bool-cases (q x)) [
    | inl b ↦ ground (arith, h x b, exists-select_none p q xs h)
    | inr b ↦ ground (arith, exists-select_none p q xs h)
  ]
