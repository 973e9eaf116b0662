-- ===== src/Worker/Providers/Placed.antt =====
-- The indices of the OpenAI answer (internal/worker/openai_embedding.go).
use creel.Base.{
  ℕ, zero, suc, ◌<◌, ℤ, pos, negsuc, List, [], ◌∷◌, some, ◌≡◌, refl, ◌≢◌, ap, ◌∙◌, sym, inl, inr,
  arith, ltb, eqb, length, get_elem?, Memᴰ, Bool-cases,
}
use creel.Exec.{ok}
use creel.Store.Rows.{Vector}
use creel.Worker.Providers.{replicate, set, Datum, place, embed_answer}

module _ {A : Type 0} where
  length-set : (xs : List A) (i : ℕ) (v : A) → length (set xs i v) ≡ length xs
  length-set [] i v = refl
  length-set (x ∷ xs) zero v = refl
  length-set (x ∷ xs) (suc i) v = ap suc (length-set xs i v)

  length-replicate : (n : ℕ) (a : A) → length (replicate n a) ≡ n
  length-replicate zero a = refl
  length-replicate (suc n) a = ap suc (length-replicate n a)

  get_elem?-set_self :
      (xs : List A) (i : ℕ) (v : A) → i < length xs → get_elem? (set xs i v) i ≡ some v
  get_elem?-set_self [] i v h = absurd (omega arith)
  get_elem?-set_self (x ∷ xs) zero v h = refl
  get_elem?-set_self (x ∷ xs) (suc i) v h = get_elem?-set_self xs i v (omega arith)

  get_elem?-set_ne :
      (xs : List A) (i j : ℕ) (v : A) → i ≢ j → get_elem? (set xs i v) j ≡ get_elem? xs j
  get_elem?-set_ne [] i j v h = refl
  get_elem?-set_ne (x ∷ xs) zero zero v h = absurd (h refl)
  get_elem?-set_ne (x ∷ xs) zero (suc j) v h = refl
  get_elem?-set_ne (x ∷ xs) (suc i) zero v h = refl
  get_elem?-set_ne (x ∷ xs) (suc i) (suc j) v h = get_elem?-set_ne xs i j v (λ e. h (ap suc e))

-- A step that succeeds: the index is in range, and the loop goes on.
record Placed (n : ℕ) (d : Datum) (ds : List Datum) (out r : List Vector) : Type 0 where
  pub at : ℕ
  pub index : d.index ≡ pos at
  pub in_range : at < n
  pub rest : place n ds (set out at d.embedding) ≡ ok r

place-Placed :
    (n : ℕ) (i : ℤ) (v : Vector) (ds : List Datum) (out r : List Vector)
    → place n (record { index = i; embedding = v } ∷ ds) out ≡ ok r
    → Placed n (record { index = i; embedding = v }) ds out r
unfolding place
place-Placed n (negsuc i) v ds out r h = absurd (cc)
place-Placed n (pos i) v ds out r h = elim (Bool-cases (ltb i n)) [
  | inl b ↦ record { at = i; index = refl; in_range = ground arith; rest = rw b at h }
  | inr b ↦ absurd (cc (rw b at h))
]

placed_lem :
    (n : ℕ) (d : Datum) (ds : List Datum) (out r : List Vector)
    → place n (d ∷ ds) out ≡ ok r
    → Placed n d ds out r
placed_lem n d ds out r h = place-Placed n d.index d.embedding ds out r h

-- No two entries have one index.
abbrev pub Unique : List Datum → Type 0
Unique [] = Unit {0}
Unique (d ∷ ds) = ((e : Datum) → Memᴰ e ds → e.index ≢ d.index) × Unique ds

length-place :
    (n : ℕ) (ds : List Datum) (out r : List Vector) → place n ds out ≡ ok r → length r ≡ length out
unfolding place
length-place n [] out r h = ground arith
length-place n (d ∷ ds) out r h =
    let p = placed_lem n d ds out r h in
    length-place n ds (set out p.at d.embedding) r p.rest ∙ length-set out p.at d.embedding

place-in_range :
    (n : ℕ) (ds : List Datum) (out r : List Vector)
    → place n ds out ≡ ok r
    → (d : Datum) → Memᴰ d ds
    → (i : ℕ) × (d.index ≡ pos i) × (i < n)
place-in_range n [] out r h d m = elim m [ ]
place-in_range n (e ∷ ds) out r h d (Memᴰ.head q) =
    let p = placed_lem n e ds out r h in (p.at, ap (λ x. x.index) q ∙ p.index, p.in_range)
place-in_range n (e ∷ ds) out r h d (Memᴰ.tail m) =
    let p = placed_lem n e ds out r h in place-in_range n ds (set out p.at e.embedding) r p.rest d m

-- A place that no entry names keeps what it had.
place-other :
    (n : ℕ) (ds : List Datum) (out r : List Vector)
    → place n ds out ≡ ok r
    → (i : ℕ) → ((d : Datum) → Memᴰ d ds → d.index ≢ pos i)
    → get_elem? r i ≡ get_elem? out i
unfolding place
place-other n [] out r h i no_entry = ground arith
place-other n (d ∷ ds) out r h i no_entry =
    let p = placed_lem n d ds out r h in
    place-other n ds (set out p.at d.embedding) r p.rest i (λ e m. no_entry e (Memᴰ.tail m))
    ∙ get_elem?-set_ne out p.at i d.embedding
        (λ e. no_entry d (Memᴰ.head refl) (p.index ∙ ap pos e))

place-entry :
    (n : ℕ) (ds : List Datum) (out r : List Vector)
    → place n ds out ≡ ok r
    → length out ≡ n
    → Unique ds
    → (d : Datum) (i : ℕ) → Memᴰ d ds
    → d.index ≡ pos i
    → get_elem? r i ≡ some d.embedding
place-entry n [] out r h len u d i m q = elim m [ ]
place-entry n (e ∷ ds) out r h len u d i (Memᴰ.head s) q =
    let p = placed_lem n e ds out r h in
    let same : p.at ≡ i = ground (arith, ap (λ x. x.index) s, p.index) in
    place-other n ds (set out p.at e.embedding) r p.rest i
      (λ x m k. u.0 x m (k ∙ sym q ∙ ap (λ y. y.index) s))
    ∙ rw (← same) (
        get_elem?-set_self out p.at e.embedding (rw len p.in_range)
        ∙ ap (λ x. some x.embedding) (sym s))
place-entry n (e ∷ ds) out r h len u d i (Memᴰ.tail m) q =
    let p = placed_lem n e ds out r h in
    place-entry n ds (set out p.at e.embedding) r p.rest (length-set out p.at e.embedding ∙ len) u.1
      d i m q

-- When `Embed` accepts an answer in which no index comes twice, there is one vector for each text,
-- and every index is a number below their count, at which the vector of its entry stands.
pub embed_answer_bounds :
    (texts : List (List ℕ)) (answer : List Datum) (out : List Vector)
    → embed_answer texts answer ≡ ok out
    → Unique answer
    → (length out ≡ length texts)
      × ((d : Datum)
          → Memᴰ d answer
          → (i : ℕ) × (d.index ≡ pos i) × (i < length texts) × (get_elem? out i ≡ some d.embedding))
unfolding embed_answer
embed_answer_bounds texts answer out h u = elim (Bool-cases (eqb (length answer) (length texts))) [
  | inl b ↦
      let p : place (length texts) answer (replicate (length texts) []) ≡ ok out = rw b at h in
      let same = length-replicate (length texts) [] in
      (
        length-place _ answer _ out p ∙ same,
        λ d m.
            let (i, q, lt) = place-in_range _ answer _ out p d m in
            (i, q, lt, place-entry _ answer _ out p same u d i m q),
      )
  | inr b ↦ absurd (cc (rw b at h))
]
