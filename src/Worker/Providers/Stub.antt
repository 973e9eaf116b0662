-- ===== src/Worker/Providers/Stub.antt =====
-- StubEmbeddingProvider of internal/worker/embedding.go. `hundredth n` is the float n / 100.
use creel.Base.{ℕ, zero, suc, ◌∷◌, List, [], map, length}
use Prim.Native.Nat.{◌%◌}
use creel.Exec.{ok}
use creel.Store.Rows.{Vector}
use creel.Worker.Embedding.{Provider}

module _ (hundredth : ℕ → ℕ) where
  -- `text[i]`, for an index in range.
  abbrev byte_at : List ℕ → ℕ → ℕ
  byte_at [] i = 0
  byte_at (b ∷ t) zero = b
  byte_at (b ∷ t) (suc i) = byte_at t i

  unfoldable pub stub_entry : List ℕ → ℕ → ℕ
  stub_entry [] j = hundredth 1
  stub_entry (b ∷ t) j = hundredth (byte_at (b ∷ t) (j % length (b ∷ t)) % 100)

  -- The loop over the dimensions; `j` counts those before.
  unfoldable pub stub_vector : List ℕ → ℕ → ℕ → Vector
  unfolding stub_entry
  stub_vector text zero j = []
  stub_vector text (suc n) j = stub_entry text j ∷ stub_vector text n (suc j)

  unfoldable pub stub_provider : ℕ → Provider
  unfolding stub_vector
  stub_provider dim = record {
    embed = λ texts. ok (map (λ text. stub_vector text dim 0) texts);
    model = "";
  }
