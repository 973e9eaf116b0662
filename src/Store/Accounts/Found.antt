-- ===== src/Store/Accounts/Found.antt =====
-- Which row a key's hash leads to (internal/store/system_account.go).
use creel.Base.{
  String, Bool, true, false, List, [], ◌∷◌, ◌++◌, Option, none, some, ◌≡◌, refl, ap, sym, inl, inr,
  arith, Bool-cases, ◌==◌, ==_refl, eq_of_==, map, contains, Distinct, exists, first, update, Memᴰ,
  if◌then◌else◌, subst,
}
use creel.Store.Rows.{SystemAccountKey}
use creel.Store.Accounts.{is_live, live_hash}

abbrev pub hashes : List SystemAccountKey → List String
hashes = map (λ k. k.key_hash)

contains-hash :
    (ks : List SystemAccountKey) (k : SystemAccountKey)
    → Memᴰ k ks
    → contains (hashes ks) k.key_hash ≡ true
contains-hash [] k m = elim m [ ]
contains-hash (x ∷ ks) k (Memᴰ.head e) = ground (arith, ap (λ y. y.key_hash) e, ==_refl k.key_hash)
contains-hash (x ∷ ks) k (Memᴰ.tail m) = ground (arith, contains-hash ks k m)

abbrev pub live_only : SystemAccountKey → Option SystemAccountKey
live_only k = if is_live k.status then some k else none

module _ (p : SystemAccountKey → Bool) (f : SystemAccountKey → SystemAccountKey)
    (keeps : (k : SystemAccountKey) → (f k).key_hash ≡ k.key_hash) where
  abbrev pub changed : SystemAccountKey → SystemAccountKey
  changed k = if p k then f k else k

  pub changed-hash : (k : SystemAccountKey) → (changed k).key_hash ≡ k.key_hash
  changed-hash k = elim (Bool-cases (p k)) [ inl e ↦ rw e (keeps k) | inr e ↦ rw e refl ]

  -- No row has the hash, so none is found.
  first-absent :
      (h : String) (ks : List SystemAccountKey)
      → contains (hashes ks) h ≡ false
      → first (live_hash h) (update p f ks) ≡ none
  first-absent h [] e = refl
  first-absent h (k ∷ ks) e = ground (arith, ap (λ s. s == h) (changed-hash k), first-absent h ks)

  first-here :
      (k : SystemAccountKey) (ks : List SystemAccountKey)
      → contains (hashes ks) k.key_hash ≡ false
      → first (live_hash k.key_hash) (update p f (k ∷ ks)) ≡ live_only (changed k)
  first-here k ks e = elim (Bool-cases (is_live (changed k).status)) [
    | inl b ↦ rw (b, changed-hash k, ==_refl k.key_hash) refl
    | inr b ↦ rw (b, changed-hash k, ==_refl k.key_hash) (first-absent k.key_hash ks e)
  ]

  -- A hash that no two rows have leads to the row that has it.
  pub first-live_hash :
      (ks : List SystemAccountKey) (k : SystemAccountKey)
      → Distinct (hashes ks)
      → Memᴰ k ks
      → first (live_hash k.key_hash) (update p f ks) ≡ live_only (changed k)
  first-live_hash [] k d m = elim m [ ]
  first-live_hash (x ∷ ks) k d (Memᴰ.head e) =
      subst (λ y. first (live_hash y.key_hash) (update p f (x ∷ ks)) ≡ live_only (changed y))
        (sym e) (first-here x ks d.0)
  first-live_hash (x ∷ ks) k d (Memᴰ.tail m) = elim (Bool-cases (x.key_hash == k.key_hash)) [
    | inl b ↦
        let same : x.key_hash ≡ k.key_hash = eq_of_== _ _ b in
        absurd (cc (contains-hash ks k m, ap (contains (hashes ks)) same, d.0))
    | inr b ↦ rw (changed-hash x, b) (first-live_hash ks k d.1 m)
  ]

module _ {A : Type 0} (p : A → Bool) where
  pub first-append_none :
      (xs : List A) (y : A) → first p xs ≡ none → p y ≡ true → first p (xs ++ y ∷ []) ≡ some y
  first-append_none [] y e h = rw h refl
  first-append_none (x ∷ xs) y e h = elim (Bool-cases (p x)) [
    | inl b ↦ absurd (cc (rw b at e))
    | inr b ↦ rw b (first-append_none xs y (rw b at e) h)
  ]

  pub first-append_other : (xs : List A) (y : A) → p y ≡ false → first p (xs ++ y ∷ []) ≡ first p xs
  first-append_other [] y h = rw h refl
  first-append_other (x ∷ xs) y h = elim (Bool-cases (p x)) [
    | inl b ↦ rw b refl
    | inr b ↦ rw b (first-append_other xs y h)
  ]

  pub exists-first : (xs : List A) → exists p xs ≡ true → (x : A) × (first p xs ≡ some x)
  exists-first [] h = absurd (cc)
  exists-first (x ∷ xs) h = elim (Bool-cases (p x)) [
    | inl b ↦ (x, rw b refl)
    | inr b ↦ let (y, e) = exists-first xs (ground arith) in (y, rw b e)
  ]

pub unused_hash :
    (h : String) (ks : List SystemAccountKey)
    → exists (λ r. r.key_hash == h) ks ≡ false
    → first (live_hash h) ks ≡ none
unused_hash h [] e = refl
unused_hash h (k ∷ ks) e = ground (arith, unused_hash h ks)

pub exists-update_hash :
    (p : SystemAccountKey → Bool) (f : SystemAccountKey → SystemAccountKey) (h : String)
    (keeps : (k : SystemAccountKey) → (f k).key_hash ≡ k.key_hash) (ks : List SystemAccountKey)
    (k : SystemAccountKey)
    → Memᴰ k ks
    → k.key_hash ≡ h
    → exists (λ r. r.key_hash == h) (update p f ks) ≡ true
exists-update_hash p f h keeps [] k m e = elim m [ ]
exists-update_hash p f h keeps (x ∷ ks) k (Memᴰ.head q) e =
    ground (arith, changed-hash p f keeps x, ap (λ y. y.key_hash) q, ==_refl h)
exists-update_hash p f h keeps (x ∷ ks) k (Memᴰ.tail m) e =
    ground (arith, exists-update_hash p f h keeps ks k m e)
