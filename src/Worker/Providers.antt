-- ===== src/Worker/Providers.antt =====
-- internal/worker/openai_embedding.go: OpenAIEmbeddingProvider from the decoded answer on. Stub has the other provider.
pub mod Placed
pub mod Stub
use creel.Base.{
  ℕ, zero, suc, ◌+◌, ◌-◌, ◌*◌, ◌≤◌, ◌<◌, ℤ, pos, negsuc, List, [], ◌∷◌, Option, none, some, ltb,
  eqb, length, Bool, true, false, if◌then◌else◌,
}
use Prim.Native.Nat.{◌%◌}
use creel.Exec.{Result, ok, err}
use creel.Store.Rows.{Vector}
use creel.Store.World.{Error}

module _ {ℓ} {A : Type ℓ} where
  -- `make([]A, n)` with its zero values.
  abbrev pub replicate : ℕ → A → List A
  replicate zero a = []
  replicate (suc n) a = a ∷ replicate n a

  -- `xs[i] = v`; past the end nothing happens, where Go would panic.
  abbrev pub set : List A → ℕ → A → List A
  set [] i v = []
  set (x ∷ xs) zero v = v ∷ xs
  set (x ∷ xs) (suc i) v = x ∷ set xs i v

-- An entry of the answer's `data`.
pub record Datum : Type 0 where
  pub index : ℤ
  pub embedding : Vector

-- The loop that puts each vector in the place of its index. A nil slice is the empty vector.
unfoldable pub place : ℕ → List Datum → List Vector → Result Error (List Vector)
place n [] out = ok out
place n (d ∷ ds) out = elim d.index [
  | negsuc i ↦ err "OpenAI returned out-of-range index"
  | pos i ↦
      if ltb i n
      then place n ds (set out i d.embedding)
      else err "OpenAI returned out-of-range index"
]

-- OpenAIEmbeddingProvider.Embed on a decoded answer.
unfoldable pub embed_answer : List (List ℕ) → List Datum → Result Error (List Vector)
unfolding place
embed_answer texts answer =
    if eqb (length answer) (length texts)
    then place (length texts) answer (replicate (length texts) [])
    else err "OpenAI returned another number of embeddings"
