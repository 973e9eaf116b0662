-- ===== src/Worker/Split.antt =====
-- `SplitText` of internal/worker/chunking.go. A text is its bytes, as in Go's `len` and slices.
pub mod Slices
pub mod Loop
pub mod Pieces
use creel.Base.{
  ℕ, zero, suc, ◌+◌, ◌-◌, ◌/◌, ℤ, pos, negsuc, List, [], ◌∷◌, Option, none, some, leb, ltb, eqb,
  length, take, drop, if◌then◌else◌, ◌≡◌, refl,
}

abbrev pub default_chunk_size : ℕ
default_chunk_size = 2048

abbrev pub default_chunk_overlap : ℕ
default_chunk_overlap = 200

-- `if chunkSize <= 0 { chunkSize = DefaultChunkSize }`.
unfoldable pub effective_size : ℤ → ℕ
effective_size (pos zero) = default_chunk_size
effective_size (pos (suc n)) = suc n
effective_size (negsuc n) = default_chunk_size

-- `if overlap < 0 { overlap = 0 }`.
unfoldable pub non_negative : ℤ → ℕ
non_negative (pos n) = n
non_negative (negsuc n) = 0

-- `if overlap >= chunkSize { overlap = chunkSize / 4 }`.
unfoldable pub effective_overlap : ℕ → ℤ → ℕ
unfolding non_negative
effective_overlap size overlap =
    if leb size (non_negative overlap) then size / 4 else non_negative overlap

abbrev pub slice : List ℕ → ℕ → ℕ → List ℕ
slice text start end = take (end - start) (drop start text)

-- `end := start + chunkSize; if end > len(text) { end = len(text) }`.
unfoldable pub chunk_end : ℕ → ℕ → ℕ → ℕ
chunk_end len size start = if ltb len (start + size) then len else start + size

abbrev cons_chunk : List ℕ → Option (List (List ℕ)) → Option (List (List ℕ))
cons_chunk c none = none
cons_chunk c (some cs) = some (c ∷ cs)

-- The loop `for start < len(text)`; `none` means that the fuel ran out.
unfoldable pub split_from : ℕ → List ℕ → ℕ → ℕ → ℕ → Option (List (List ℕ))
unfolding chunk_end
split_from zero text size overlap start = none
split_from (suc f) text size overlap start =
    let end = chunk_end (length text) size start in
    let rest = split_from f text size overlap (end - overlap) in
    let chunk = slice text start end in
    if ltb start (length text)
    then (if eqb end (length text) then some (chunk ∷ []) else cons_chunk chunk rest)
    else some []

-- A text that fits is one chunk, the empty text none.
abbrev whole : List ℕ → List (List ℕ)
whole [] = []
whole (b ∷ text) = (b ∷ text) ∷ []

-- One round for each byte, and one more, is fuel enough.
unfoldable pub split_text : List ℕ → ℤ → ℤ → Option (List (List ℕ))
unfolding split_from effective_size effective_overlap
split_text text chunk_size overlap =
    let size = effective_size chunk_size in
    if leb (length text) size
    then some (whole text)
    else split_from (suc (length text)) text size (effective_overlap size overlap) 0
