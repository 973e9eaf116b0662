-- ===== src/Worker/Split/Loop.antt =====
-- The loop of `SplitText` against a relation that says which slices are cut.
use creel.Base.{
  ℕ, zero, suc, ◌+◌, ◌-◌, ◌≤◌, ◌<◌, ◌≡◌, List, [], ◌∷◌, some, arith, ap, length-drop, length, take,
  drop,
}
use native.Mathlib.Decide.{dec_lt}
use creel.Worker.Split.{split_from, cons_chunk}
use creel.Worker.Split.Slices.{take-length}

-- From `start` on: the last slice reaches the end, every other one is followed by the slice that
-- begins `overlap` bytes before its end.
pub data Splits (text : List ℕ) (size overlap : ℕ) : ℕ → List (List ℕ) → Type 0 where
  last :
      {start : ℕ}
      → start < length text
      → length text ≤ start + size
      → Splits text size overlap start (drop start text ∷ [])
  more :
      {start : ℕ} {cs : List (List ℕ)}
      → start + size < length text
      → Splits text size overlap (start + size - overlap) cs
      → Splits text size overlap start (take size (drop start text) ∷ cs)

module _ (f : ℕ) (text : List ℕ) (size overlap start : ℕ) where
  split_from_last :
      start < length text
      → length text ≤ start + size
      → split_from (suc f) text size overlap start ≡ some (drop start text ∷ [])
  unfolding split_from
  split_from_last s e = ground (
    arith,
    take-length (length text - start) (drop start text) (omega (arith, length-drop start text)),
  )

  split_from_more :
      start + size < length text
      → split_from (suc f) text size overlap start
        ≡ cons_chunk
            (take size (drop start text))
            (split_from f text size overlap (start + size - overlap))
  unfolding split_from
  split_from_more e =
      let n : start + size - start ≡ size = omega arith in
      ground (arith, ap (λ k. take k (drop start text)) n)

-- Each round moves forward, so the loop ends, and what it returns is such a list of slices.
pub split_from-Splits :
    (f : ℕ) (text : List ℕ) (size overlap start : ℕ)
    → overlap < size
    → start < length text
    → length text - start < f
    → (cs : List (List ℕ)) × (split_from f text size overlap start ≡ some cs)
      × Splits text size overlap start cs
split_from-Splits zero text size overlap start o s h = elim h [ ]
split_from-Splits (suc f) text size overlap start o s h =
    elim (dec_lt (start + size) (length text)) [
      | yes m ↦
          let (cs, e, r) =
            split_from-Splits f text size overlap (start + size - overlap) o (omega arith)
              (omega arith) in
          (
            take size (drop start text) ∷ cs,
            rw (split_from_more f text size overlap start m) (rw e),
            more m r,
          )
      | no l ↦ (
        drop start text ∷ [],
        split_from_last f text size overlap start s (omega arith),
        last s (omega arith),
      )
    ]
