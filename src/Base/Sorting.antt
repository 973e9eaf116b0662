-- ===== src/Base/Sorting.antt =====
-- Insertion sort, for `ORDER BY`, and where the rows of a result come from.
use mathlib.Core.Path.{◌≡◌, refl}
use mathlib.Core.Logic.{◌⊎◌, inl, inr}
use mathlib.Core.Bool.{Bool, true, false}
use mathlib.Core.List.{List, [], ◌∷◌, map, Memᴰ}
use mathlib.Core.Option.{some}
use creel.Base.Lists.{first}
use creel.Base.Tests.{if◌then◌else◌, Bool-cases}

module _ {A : Type 0} (before : A → A → Bool) where
  -- A row goes before the first row that it does not come after.
  abbrev pub insert_by : A → List A → List A
  insert_by x [] = x ∷ []
  insert_by x (y ∷ ys) = let rest = insert_by x ys in if before x y then x ∷ y ∷ ys else y ∷ rest

  abbrev pub sort_by : List A → List A
  sort_by [] = []
  sort_by (x ∷ xs) = insert_by x (sort_by xs)

  insert_by-Memᴰ : (x : A) (ys : List A) (y : A) → Memᴰ y (insert_by x ys) → (y ≡ x) ⊎ Memᴰ y ys
  insert_by-Memᴰ x [] y (Memᴰ.head e) = inl e
  insert_by-Memᴰ x [] y (Memᴰ.tail m) = elim m [ ]
  insert_by-Memᴰ x (z ∷ ys) y m = placed (before x z) (insert_by-Memᴰ x ys y) m
    where
      placed :
          (b : Bool)
          → (Memᴰ y (insert_by x ys) → (y ≡ x) ⊎ Memᴰ y ys)
          → Memᴰ y (if b then x ∷ z ∷ ys else z ∷ insert_by x ys)
          → (y ≡ x) ⊎ Memᴰ y (z ∷ ys)
      placed true ih (Memᴰ.head e) = inl e
      placed true ih (Memᴰ.tail n) = inr n
      placed false ih (Memᴰ.head e) = inr (Memᴰ.head e)
      placed false ih (Memᴰ.tail n) = elim (ih n) [ inl e ↦ inl e | inr k ↦ inr (Memᴰ.tail k) ]

  pub sort_by-Memᴰ : (xs : List A) (y : A) → Memᴰ y (sort_by xs) → Memᴰ y xs
  sort_by-Memᴰ [] y m = m
  sort_by-Memᴰ (x ∷ xs) y m = elim (insert_by-Memᴰ x (sort_by xs) y m) [
    | inl e ↦ Memᴰ.head e
    | inr n ↦ Memᴰ.tail (sort_by-Memᴰ xs y n)
  ]

pub map-Memᴰ :
    {A B : Type 0} (f : A → B) (xs : List A) (y : B)
    → Memᴰ y (map f xs)
    → (x : A) × Memᴰ x xs × (y ≡ f x)
map-Memᴰ f [] y m = elim m [ ]
map-Memᴰ f (x ∷ xs) y (Memᴰ.head e) = (x, Memᴰ.head refl, e)
map-Memᴰ f (x ∷ xs) y (Memᴰ.tail m) = let (z, n, e) = map-Memᴰ f xs y m in (z, Memᴰ.tail n, e)

pub first-Memᴰ : {A : Type 0} (p : A → Bool) (xs : List A) (x : A) → first p xs ≡ some x → Memᴰ x xs
first-Memᴰ p [] x h = absurd (cc)
first-Memᴰ p (y ∷ xs) x h = elim (Bool-cases (p y)) [
  | inl b ↦ Memᴰ.head (same y x (rw b at h))
  | inr b ↦ Memᴰ.tail (first-Memᴰ p xs x (rw b at h))
]
  where
    same : {A : Type 0} (y x : A) → some y ≡ some x → x ≡ y
    same y x h = cc
