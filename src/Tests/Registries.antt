-- ===== src/Tests/Registries.antt =====
-- An example of the registry of vector backends, with numbers as backends.
use creel.Base.{ℕ, false, ◌≡◌, refl, string_dec, ◌==◌}
use creel.Exec.{ok}
use creel.Vector.Registry.{Registry, new_registry, register_factory, create, get_or_create}
use creel.Vector.Registry.Agreement.{now, creates, create-get_or_create}

-- The factory makes the backend that its configuration names.
abbrev registry : Registry ℕ ℕ
registry = register_factory "pgvector" (λ n. ok n) (new_registry 0)

abbrev after_first : Registry ℕ ℕ
after_first = (create "b1" "pgvector" 7 registry).1

abbrev after_second : Registry ℕ ℕ
after_second = (create "b2" "pgvector" 9 after_first).1

first_creates : (create "b1" "pgvector" 7 registry).0 ≡ ok 7
unfolding create register_factory string_dec
first_creates = refl

named : ("b1" == "") ≡ false
unfolding string_dec
named = refl

create-get_or_create_example :
    (get_or_create "b1" "pgvector" 8 after_second ≡ (ok 7, after_second))
    × (create "b1" "pgvector" 8 after_second ≡ (ok 7, after_second))
create-get_or_create_example =
    create-get_or_create "b1" "pgvector" "pgvector" 7 8 7 registry after_second named first_creates
      (creates now "b2" "pgvector" 9)
