-- ===== src/Worker/Split/Pieces.antt =====
-- What `SplitText` promises: the chunks cover the text, overlap as asked and are of the asked size.
use creel.Base.{
  ℕ, zero, suc, ◌+◌, ◌-◌, ◌≤◌, ◌<◌, ◌≡◌, refl, ap, sym, ◌∙◌, ℤ, List, [], ◌∷◌, ◌++◌, some, arith,
  length, take, drop, length-drop, length-take, leb, Bool-cases, inl, inr, leb→le, pos, negsuc,
}
use mathlib.Core.List.{append-nil}
use creel.Worker.Split.{split_text, effective_size, effective_overlap, whole}
use creel.Worker.Split.Slices.{drop-drop, drop-take-append, drop-take, take-take, take-length}
use creel.Worker.Split.Loop.{Splits, last, more, split_from-Splits}

-- The chunks without the bytes that each repeats of the one before.
abbrev tails : ℕ → List (List ℕ) → List ℕ
tails overlap [] = []
tails overlap (c ∷ cs) = drop overlap c ++ tails overlap cs

abbrev pub rejoin : ℕ → List (List ℕ) → List ℕ
rejoin overlap [] = []
rejoin overlap (c ∷ cs) = c ++ tails overlap cs

-- No chunk is empty, all but the last have exactly `size` bytes and the last no more, and each begins
-- with the last `overlap` bytes of the one before.
abbrev pub ArePieces : ℕ → ℕ → List (List ℕ) → Type 0
ArePieces size overlap [] = Unit {0}
ArePieces size overlap (c ∷ []) = (0 < length c) × (length c ≤ size)
ArePieces size overlap (c ∷ d ∷ cs) =
    (length c ≡ size) × (take overlap d ≡ drop (size - overlap) c) × ArePieces size overlap (d ∷ cs)

module _ (text : List ℕ) (size overlap : ℕ) (small : overlap < size) where
  tails-Splits :
      {start : ℕ} {cs : List (List ℕ)}
      → Splits text size overlap start cs
      → tails overlap cs ≡ drop (start + overlap) text
  tails-Splits (last {start = i} s e) = append-nil _ ∙ drop-drop overlap i text
  tails-Splits (more {start = i} {cs = cs} m r) =
      let e : i + size - overlap + overlap ≡ i + size = omega arith in
      rw (tails-Splits r) (
        rw e (
          rw (← drop-drop size i text)
            (drop-take-append overlap size (drop i text) (omega arith) ∙ drop-drop overlap i text)))

  rejoin-Splits :
      {start : ℕ} {cs : List (List ℕ)}
      → Splits text size overlap start cs
      → rejoin overlap cs ≡ drop start text
  rejoin-Splits (last {start = i} s e) = append-nil _
  rejoin-Splits (more {start = i} {cs = cs} m r) =
      let e : i + size - overlap + overlap ≡ i + size = omega arith in
      rw (tails-Splits r)
        (rw e (rw (← drop-drop size i text) (drop-take-append 0 size (drop i text) (omega arith))))

  -- Two adjacent chunks share `overlap` bytes.
  shared :
      (i k : ℕ)
      → i + size < length text
      → overlap ≤ k
      → take overlap (take k (drop (i + size - overlap) text))
        ≡ drop (size - overlap) (take size (drop i text))
  shared i k m h =
      let e : size - overlap + overlap ≡ size = omega arith in
      let j : i + (size - overlap) ≡ i + size - overlap = omega arith in
      rw (take-take overlap k (drop (i + size - overlap) text) h) (
        rw (← j) (
          rw (← drop-drop (size - overlap) i text) (
            sym (drop-take (size - overlap) overlap (drop i text))
            ∙ ap (λ n. drop (size - overlap) (take n (drop i text))) e)))

  full : (i : ℕ) → i + size ≤ length text → length (take size (drop i text)) ≡ size
  full i h = omega (arith, length-take size (drop i text), length-drop i text)

  ArePieces-Splits :
      {start : ℕ} {cs : List (List ℕ)}
      → Splits text size overlap start cs
      → ArePieces size overlap cs
  ArePieces-Splits (last {start = i} s e) =
      (omega (arith, length-drop i text), omega (arith, length-drop i text))
  ArePieces-Splits (more {start = i} m (last s e)) = (
    full i (omega arith),
    rw
        (← take-length (length text) (drop (i + size - overlap) text)
          (omega (arith, length-drop (i + size - overlap) text)))
        (shared i (length text) m (omega arith)),
    ArePieces-Splits (last s e),
  )
  ArePieces-Splits (more {start = i} m (more n r)) =
      (full i (omega arith), shared i size m (omega arith), ArePieces-Splits (more n r))

effective_overlap-lt : (size : ℕ) (o : ℤ) → 0 < size → effective_overlap size o < size
unfolding effective_overlap
effective_overlap-lt size o h = ground arith

effective_size-pos : (n : ℤ) → 0 < effective_size n
unfolding effective_size
effective_size-pos (pos zero) = omega arith
effective_size-pos (pos (suc n)) = omega arith
effective_size-pos (negsuc n) = omega arith

whole_pieces :
    (text : List ℕ) (size overlap : ℕ)
    → length text ≤ size
    → (rejoin overlap (whole text) ≡ text) × ArePieces size overlap (whole text)
whole_pieces [] size overlap h = (refl, tt)
whole_pieces (b ∷ text) size overlap h = (append-nil (b ∷ text), omega arith)

-- For every text, chunk size and overlap, also negative ones, `SplitText` ends, its chunks without
-- the repeated bytes are the text, and they are pieces of the size and overlap in effect.
pub split_text_pieces :
    (text : List ℕ) (chunk_size overlap : ℤ)
    → let size = effective_size chunk_size in
      let shared_bytes = effective_overlap size overlap in
      (chunks : List (List ℕ)) × (split_text text chunk_size overlap ≡ some chunks)
      × (rejoin shared_bytes chunks ≡ text)
      × ArePieces size shared_bytes chunks
unfolding split_text
split_text_pieces text chunk_size overlap =
    let size = effective_size chunk_size in
    let o = effective_overlap size overlap in
    let small = effective_overlap-lt size overlap (effective_size-pos chunk_size) in
    elim (Bool-cases (leb (length text) size)) [
      | inl fits ↦
          let (j, a) = whole_pieces text size o (leb→le _ _ fits) in (whole text, rw fits, j, a)
      | inr long ↦
          let (cs, e, r) =
            split_from-Splits (suc (length text)) text size o 0 small (ground arith)
              (omega arith) in
          (cs, rw long e, rejoin-Splits text size o small r, ArePieces-Splits text size o small r)
    ]
