-- ===== src/Retrieval/Search/Filtering.antt =====
-- The lists that internal/retrieval/search.go and the vector backend narrow on the way: each holds
-- only what the list before it allowed.
use creel.Base.{
  ℕ, zero, suc, String, Bool, true, false, List, [], ◌∷◌, ◌≡◌, refl, ◌∙◌, inl, inr, arith, ◌&&◌,
  ◌||◌, ◌==◌, eq_of_==, is_empty, map, take, select, exists, contains, Bool-cases,
}
use creel.Store.Rows.{Vector, Embedding}
use creel.Store.Vectors.Similar.{Similarity, closest_first, insert_closest, id_passes, as_result}
use creel.Retrieval.Search.{intersect}

abbrev pub in_request : List String → String → Bool
in_request [] t = true
in_request (i ∷ ids) t = contains (i ∷ ids) t

contains-select :
    (p : String → Bool) (xs : List String) (s : String)
    → contains (select p xs) s ≡ true
    → (contains xs s && p s) ≡ true
contains-select p [] s h = h
contains-select p (x ∷ xs) s h = elim (Bool-cases (x == s)) [
  | inl e ↦ ground (arith, contains-select p xs s, eq_of_== x s e)
  | inr e ↦ ground (arith, contains-select p xs s)
]

pub contains-intersect :
    (requested accessible : List String) (s : String)
    → contains (intersect requested accessible) s ≡ true
    → (in_request requested s && contains accessible s) ≡ true
unfolding intersect
contains-intersect [] accessible s h = h
contains-intersect (t ∷ ts) accessible s h = contains-select (contains accessible) (t ∷ ts) s h

module _ {A : Type 0} (key : A → String) where
  pub exists-key :
      (p : A → Bool) (xs : List A) (s : String)
      → contains (map key (select p xs)) s ≡ true
      → exists (λ x. key x == s && p x) xs ≡ true
  exists-key p [] s h = h
  exists-key p (x ∷ xs) s h = ground (arith, exists-key p xs s)

-- The rows that come back are rows that passed the filter, in another order.
module _ (sim : Similarity) (query : Vector) (q : Embedding → Bool) where
  exists-insert_closest :
      (e : Embedding) (es : List Embedding)
      → exists q (insert_closest sim query e es) ≡ (q e || exists q es)
  exists-insert_closest e [] = refl
  exists-insert_closest e (f ∷ fs) = ground (arith, exists-insert_closest e fs)

  pub exists-closest_first :
      (es : List Embedding) → exists q (closest_first sim query es) ≡ exists q es
  unfolding closest_first
  exists-closest_first [] = refl
  exists-closest_first (e ∷ es) =
      exists-insert_closest e (closest_first sim query es) ∙ ground (arith, exists-closest_first es)

pub exists-as_result :
    (sim : Similarity) (query : Vector) (s : String) (n : ℕ) (es : List Embedding)
    → exists (λ r. r.chunk_id == s) (take n (map (as_result sim query) es)) ≡ true
    → exists (λ e. e.chunk_id == s) es ≡ true
exists-as_result sim query s zero es h = ground arith
exists-as_result sim query s (suc n) [] h = h
exists-as_result sim query s (suc n) (e ∷ es) h = ground (arith, exists-as_result sim query s n es)

pub exists-passing :
    (ids : List String) (p : Embedding → Bool) (s : String) (es : List Embedding)
    → is_empty ids ≡ false
    → exists (λ e. e.chunk_id == s) (select (λ e. id_passes ids e && p e) es) ≡ true
    → contains ids s ≡ true
exists-passing [] p s es n h = cc
exists-passing (i ∷ ids) p s [] n h = cc
exists-passing (i ∷ ids) p s (e ∷ es) n h = elim (Bool-cases (e.chunk_id == s)) [
  | inl x ↦ ground (arith, exists-passing (i ∷ ids) p s es, eq_of_== e.chunk_id s x)
  | inr x ↦ ground (arith, exists-passing (i ∷ ids) p s es)
]
