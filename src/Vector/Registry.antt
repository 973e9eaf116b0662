-- ===== src/Vector/Registry.antt =====
-- internal/vector/registry.go: backends by the ID of their configuration, made when first asked for. A
-- read lock guards one lookup and a write lock the whole of `create`, so each is one atomic step.
pub mod Agreement
use creel.Base.{String, Bool, List, [], ◌∷◌, Option, none, some, not, ◌==◌, select, if◌then◌else◌}
use creel.Exec.{Exec, Result, ok, err, pure, fail}

-- A Go map, by the first entry of a key.
abbrev pub map_get : {V : Type 0} → String → List (String × V) → Option V
map_get k [] = none
map_get k (e ∷ m) = let rest = map_get k m in if e.0 == k then some e.1 else rest

-- `m[k] = v`: what was there under the key is not seen any more.
abbrev pub map_set : {V : Type 0} → String → V → List (String × V) → List (String × V)
map_set k v m = (k, v) ∷ m

abbrev pub map_delete : {V : Type 0} → String → List (String × V) → List (String × V)
map_delete k m = select (λ e. not (e.0 == k)) m

-- Over any type of backends and of configuration maps.
pub record Registry (B C : Type 0) : Type 0 where
  pub backends : List (String × B)
  pub factories : List (String × (C → Result String B))
  pub fallback : B

abbrev pub initialized : {B : Type 0} → Option B → Result String B
initialized none = err "vector backend config not initialized"
initialized (some b) = ok b

module _ {B C : Type 0} where
  abbrev pub new_registry : B → Registry B C
  new_registry fallback = record { backends = []; factories = []; fallback = fallback }

  unfoldable pub register_factory : String → (C → Result String B) → Registry B C → Registry B C
  register_factory type f r = record r { factories = map_set type f r.factories }

  unfoldable pub get : Option String → Registry B C → Result String B
  get none r = ok r.fallback
  get (some id) r = if id == "" then ok r.fallback else initialized (map_get id r.backends)

  unfoldable pub put : String → B → Registry B C → Registry B C
  put id b r = record r { backends = map_set id b r.backends }

  unfoldable pub remove : String → Registry B C → Registry B C
  remove id r = record r { backends = map_delete id r.backends }

  abbrev pub made : String → Result String B → Exec (Registry B C) String B
  made id (err e) r = (err "creating backend", r)
  made id (ok b) r = (ok b, record r { backends = map_set id b r.backends })

  abbrev pub make : String → C → Option (C → Result String B) → Exec (Registry B C) String B
  make id config none r = (err "no factory registered for backend type", r)
  make id config (some f) r = made id (f config) r

  -- Under the write lock: the second look, and the factory.
  abbrev pub create_unless : String → String → C → Option B → Exec (Registry B C) String B
  create_unless id type config none r = make id config (map_get type r.factories) r
  create_unless id type config (some b) r = (ok b, r)

  unfoldable pub create : String → String → C → Exec (Registry B C) String B
  create id type config r = create_unless id type config (map_get id r.backends) r

  abbrev pub look_or_create : String → String → C → Option B → Exec (Registry B C) String B
  look_or_create id type config none r = create id type config r
  look_or_create id type config (some b) r = (ok b, r)

  -- With no other goroutine between the two locks.
  unfoldable pub get_or_create : String → String → C → Exec (Registry B C) String B
  get_or_create id type config r =
      if id == ""
      then (ok r.fallback, r)
      else look_or_create id type config (map_get id r.backends) r
