-- ===== src/Worker/Split/Slices.antt =====
-- Prefixes and suffixes of a text.
use creel.Base.{
  ℕ, zero, suc, ◌+◌, ◌≤◌, ◌≡◌, refl, ap, sym, ◌∙◌, take-append-drop, List, [], ◌∷◌, ◌++◌, arith,
  length, take, drop,
}

module _ {ℓ} {A : Type ℓ} where
  pub drop-nil : (n : ℕ) → drop {A = A} n [] ≡ []
  drop-nil zero = refl
  drop-nil (suc n) = refl

  pub take-nil : (n : ℕ) → take {A = A} n [] ≡ []
  take-nil zero = refl
  take-nil (suc n) = refl

  pub drop-drop : (a b : ℕ) (xs : List A) → drop a (drop b xs) ≡ drop (b + a) xs
  drop-drop a zero xs = ground arith
  drop-drop a (suc b) [] = drop-nil a ∙ sym (drop-nil (suc b + a))
  drop-drop a (suc b) (x ∷ xs) =
      let e : suc b + a ≡ suc (b + a) = omega arith in rw e (drop-drop a b xs)

  pub take-length : (n : ℕ) (xs : List A) → length xs ≤ n → take n xs ≡ xs
  take-length zero [] h = refl
  take-length zero (x ∷ xs) h = elim h [ ]
  take-length (suc n) [] h = refl
  take-length (suc n) (x ∷ xs) h = ap (◌∷◌ x) (take-length n xs (omega arith))

  -- A slice without its first bytes, and what follows the slice.
  pub drop-take-append :
      (o n : ℕ) (xs : List A) → o ≤ n → drop o (take n xs) ++ drop n xs ≡ drop o xs
  drop-take-append zero n xs h = take-append-drop n xs
  drop-take-append (suc o) zero xs h = elim h [ ]
  drop-take-append (suc o) (suc n) [] h = refl
  drop-take-append (suc o) (suc n) (x ∷ xs) h = drop-take-append o n xs (omega arith)

  pub drop-take : (k o : ℕ) (xs : List A) → drop k (take (k + o) xs) ≡ take o (drop k xs)
  drop-take zero o xs = let e : zero + o ≡ o = omega arith in rw e
  drop-take (suc k) o [] =
      let e : suc k + o ≡ suc (k + o) = omega arith in rw (e, take) (sym (take-nil o))
  drop-take (suc k) o (x ∷ xs) =
      let e : suc k + o ≡ suc (k + o) = omega arith in rw e (drop-take k o xs)

  pub take-take : (o n : ℕ) (xs : List A) → o ≤ n → take o (take n xs) ≡ take o xs
  take-take zero n xs h = refl
  take-take (suc o) zero xs h = elim h [ ]
  take-take (suc o) (suc n) [] h = refl
  take-take (suc o) (suc n) (x ∷ xs) h = ap (◌∷◌ x) (take-take o n xs (omega arith))
