-- ===== src/Slug/Shape.antt =====
-- The shape of the slugs of internal/slug/slug.go.
use creel.Base.{
  ℕ, ◌<◌, Bool, true, false, List, [], ◌∷◌, ◌++◌, ◌≡◌, refl, ap, ◌∙◌, ◌⊎◌, inl, inr, ◌&&◌, ◌||◌,
  not, eqb, is_empty, if◌then◌else◌, arith, Bool-cases,
}
use Prim.Native.Nat.{◌%◌}
use creel.Worker.Extraction.{to_lower, lower}
use creel.Slug.{
  hyphen, is_alphanumeric, replace_runs, trim_leading, trim_trailing, slugify, charset_at,
  random_suffix, generate,
}

-- Words of [a-z0-9] with single hyphens between them; the flag is whether a word has begun.
unfoldable pub words_from : Bool → List ℕ → Bool
words_from begun [] = begun
words_from begun (c ∷ s) =
    let word = words_from true s in
    let next = words_from false s in
    if is_alphanumeric c then word else if eqb c hyphen && begun then next else false

-- Such words, or nothing at all.
abbrev pub is_slug : List ℕ → Bool
is_slug s = is_empty s || words_from false s

-- No two hyphens in a row; the flag is whether one stands before.
unfoldable single : Bool → List ℕ → Bool
single after [] = true
single after (c ∷ s) =
    let word = single false s in
    let run = single true s in
    if is_alphanumeric c then word else if eqb c hyphen && not after then run else false

single-replace_runs : (b : Bool) (s : List ℕ) → single b (replace_runs b s) ≡ true
unfolding single replace_runs
single-replace_runs b [] = refl
single-replace_runs b (c ∷ s) = elim (Bool-cases (is_alphanumeric c)) [
  | inl a ↦ rw (a, a) (single-replace_runs false s)
  | inr a ↦ elim (Bool-cases b) [
    | inl e ↦ rw (a, e) (single-replace_runs true s)
    | inr e ↦ rw (a, e) (single-replace_runs true s)
  ]
]

single-trim_leading :
    (b : Bool) (s : List ℕ) → single b s ≡ true → single true (trim_leading s) ≡ true
unfolding single trim_leading
single-trim_leading b [] h = refl
single-trim_leading b (c ∷ s) h = elim (Bool-cases (eqb c hyphen)) [
  | inl e ↦ rw e (single-trim_leading true s (ground arith))
  | inr e ↦ ground arith
]

words-trim_trailing :
    (b : Bool) (s : List ℕ)
    → single b s ≡ true
    → (trim_trailing s ≡ []) ⊎ (words_from (not b) (trim_trailing s) ≡ true)
unfolding single trim_trailing words_from
words-trim_trailing b [] h = inl refl
words-trim_trailing b (c ∷ s) h = elim (Bool-cases (is_alphanumeric c)) [
  | inl a ↦ elim (words-trim_trailing false s (rw a at h)) [
    | inl e ↦ inr (ground arith)
    | inr e ↦ inr (ground arith)
  ]
  | inr a ↦ elim (words-trim_trailing true s (ground arith)) [
    | inl e ↦ inl (ground arith)
    | inr e ↦ inr (ground arith)
  ]
]

slugify_shape : (name : List ℕ) → is_slug (slugify name) ≡ true
unfolding slugify words_from
slugify_shape name =
    elim (words-trim_trailing true (trim_leading (replace_runs false (lower name))) (
      single-trim_leading false (replace_runs false (lower name))
        (single-replace_runs false (lower name)))) [
          | inl e ↦ rw e refl
          | inr e ↦ elim (Bool-cases (is_empty (slugify name))) [
            | inl f ↦ rw f refl
            | inr f ↦ rw f e
          ]
        ]

lower_alphanumeric : (c : ℕ) → is_alphanumeric c ≡ true → to_lower c ≡ c
unfolding to_lower
lower_alphanumeric c h = ground arith

lower_hyphen : (c : ℕ) → eqb c hyphen ≡ true → to_lower c ≡ c
unfolding to_lower
lower_hyphen c h = ground arith

lower-words : (b : Bool) (s : List ℕ) → words_from b s ≡ true → lower s ≡ s
unfolding lower words_from
lower-words b [] h = refl
lower-words b (c ∷ s) h = elim (Bool-cases (is_alphanumeric c)) [
  | inl a ↦ rw (lower_alphanumeric c a, lower-words true s (rw a at h)) refl
  | inr a ↦ rw (lower_hyphen c (ground arith), lower-words false s (ground arith)) refl
]

replace_runs-words : (b : Bool) (s : List ℕ) → words_from b s ≡ true → replace_runs (not b) s ≡ s
unfolding replace_runs words_from
replace_runs-words b [] h = refl
replace_runs-words b (c ∷ s) h = elim (Bool-cases (is_alphanumeric c)) [
  | inl a ↦ rw (a, replace_runs-words true s (rw a at h)) refl
  | inr a ↦
      let e : eqb c hyphen ≡ true = ground arith in
      let c_is : c ≡ hyphen = ground arith in
      let begun : b ≡ true = ground arith in
      let next : words_from false s ≡ true = ground arith in
      rw (a, begun, replace_runs-words false s next, c_is) refl
]

first_word : (s : List ℕ) → words_from false s ≡ true → replace_runs false s ≡ replace_runs true s
unfolding replace_runs words_from
first_word [] h = refl
first_word (c ∷ s) h = elim (Bool-cases (is_alphanumeric c)) [
  | inl a ↦ rw a refl
  | inr a ↦ absurd (ground arith)
]

trim_leading-words : (s : List ℕ) → words_from false s ≡ true → trim_leading s ≡ s
unfolding trim_leading words_from
trim_leading-words [] h = refl
trim_leading-words (c ∷ s) h = ground arith

trim_trailing-words : (b : Bool) (s : List ℕ) → words_from b s ≡ true → trim_trailing s ≡ s
unfolding trim_trailing words_from
trim_trailing-words b [] h = refl
trim_trailing-words b (c ∷ s) h = elim (Bool-cases (is_alphanumeric c)) [
  | inl a ↦ let rest = trim_trailing-words true s (rw a at h) in ground arith
  | inr a ↦
      let next : words_from false s ≡ true = ground arith in
      let rest = trim_trailing-words false s next in ground arith
]

slugify-words : (s : List ℕ) → words_from false s ≡ true → slugify s ≡ s
unfolding slugify
slugify-words s h =
    ap (λ t. trim_trailing (trim_leading (replace_runs false t))) (lower-words false s h)
    ∙ ap (λ t. trim_trailing (trim_leading t)) (first_word s h ∙ replace_runs-words false s h)
    ∙ ap trim_trailing (trim_leading-words s h)
    ∙ trim_trailing-words false s h

slugify-slug : (s : List ℕ) → is_slug s ≡ true → slugify s ≡ s
unfolding slugify replace_runs trim_leading trim_trailing lower
slugify-slug [] h = refl
slugify-slug (c ∷ s) h = slugify-words (c ∷ s) h

-- Whatever the name is, its slug is empty or made of words of the letters a to z and digits with
-- single hyphens between them, and it is its own slug.
pub slugify_lem :
    (name : List ℕ) → (is_slug (slugify name) ≡ true) × (slugify (slugify name) ≡ slugify name)
slugify_lem name = (slugify_shape name, slugify-slug (slugify name) (slugify_shape name))

suffix_alphanumeric : (n : ℕ) → n < 36 → is_alphanumeric (charset_at n) ≡ true
suffix_alphanumeric n h = ground arith

words-suffix : (bytes : List ℕ) → words_from true (random_suffix bytes) ≡ true
unfolding words_from random_suffix
words-suffix [] = refl
words-suffix (b ∷ bytes) = rw (suffix_alphanumeric (b % 36) (omega arith)) (words-suffix bytes)

words-join :
    (b : Bool) (s t : List ℕ)
    → words_from b s ≡ true
    → words_from false t ≡ true
    → words_from b (s ++ hyphen ∷ t) ≡ true
unfolding words_from
words-join b [] t h k = ground arith
words-join b (c ∷ s) t h k = elim (Bool-cases (is_alphanumeric c)) [
  | inl a ↦ rw a (words-join true s t (rw a at h) k)
  | inr a ↦
      let next : words_from false s ≡ true = ground arith in
      let rest = words-join false s t next k in ground arith
]

words-random_suffix :
    (bytes : List ℕ) → is_empty bytes ≡ false → words_from false (random_suffix bytes) ≡ true
unfolding words_from random_suffix
words-random_suffix [] h = cc
words-random_suffix (b ∷ bytes) h =
    rw (suffix_alphanumeric (b % 36) (omega arith)) (words-suffix bytes)

slug-words : (s : List ℕ) → is_slug s ≡ true → is_empty s ≡ false → words_from false s ≡ true
slug-words s h e = ground arith

generate_words :
    (bytes name : List ℕ) → is_empty bytes ≡ false → words_from false (generate bytes name) ≡ true
unfolding generate
generate_words bytes name h = elim (Bool-cases (is_empty (slugify name))) [
  | inl e ↦ rw e (words-random_suffix bytes h)
  | inr e ↦ rw e (
      words-join false (slugify name) (random_suffix bytes)
        (slug-words (slugify name) (slugify_shape name) e) (words-random_suffix bytes h))
]

-- With at least one random byte, `Generate` gives words of the letters a to z and digits with single
-- hyphens between them, whatever the name and the bytes are, and `Slugify` leaves them as they are.
pub generate_lem :
    (bytes name : List ℕ)
    → is_empty bytes ≡ false
    → (words_from false (generate bytes name) ≡ true)
      × (slugify (generate bytes name) ≡ generate bytes name)
generate_lem bytes name h =
    let ok_words = generate_words bytes name h in
    (ok_words, slugify-words (generate bytes name) ok_words)
