-- ===== src/Vector/Registry/Agreement.antt =====
-- Goroutines that ask internal/vector/registry.go for one backend at the same time.
use creel.Base.{
  String, false, Option, none, some, ◌≡◌, refl, sym, ap, ◌∙◌, inl, inr, Bool-cases, ◌==◌, eq_of_==,
  ==_refl,
}
use creel.Exec.{Result, ok, err}
use creel.Vector.Registry.{
  Registry, map_get, register_factory, made, make, create_unless, create, get_or_create,
}

module _ {B C : Type 0} where
  -- What other goroutines may do in between: any lookups, creations under the write lock, with any
  -- outcome, and new factories, but no `Put` and no `Remove`.
  pub data Later (r : Registry B C) : Registry B C → Type 0 where
    now : Later r r
    creates :
        {s : Registry B C}
        → Later r s
        → (id type : String) (config : C) → Later r (create id type config s).1
    registers :
        {s : Registry B C}
        → Later r s
        → (type : String) (f : C → Result String B) → Later r (register_factory type f s)

  made-keeps :
      (id other : String) (b : B) (x : Result String B) (r : Registry B C)
      → map_get other r.backends ≡ none
      → map_get id r.backends ≡ some b
      → map_get id (made other x r).1.backends ≡ some b
  made-keeps id other b (err e) r n h = h
  made-keeps id other b (ok c) r n h = elim (Bool-cases (other == id)) [
    | inl e ↦
        let same : none ≡ some b =
          sym n ∙ ap (λ k. map_get k r.backends) (eq_of_== other id e) ∙ h in
        absurd (cc)
    | inr e ↦ rw e h
  ]

  make-keeps :
      (id other : String) (config : C) (b : B) (f : Option (C → Result String B)) (r : Registry B C)
      → map_get other r.backends ≡ none
      → map_get id r.backends ≡ some b
      → map_get id (make other config f r).1.backends ≡ some b
  make-keeps id other config b none r n h = h
  make-keeps id other config b (some f) r n h = made-keeps id other b (f config) r n h

  create_unless-keeps :
      (id other type : String) (config : C) (b : B) (o : Option B) (r : Registry B C)
      → map_get other r.backends ≡ o
      → map_get id r.backends ≡ some b
      → map_get id (create_unless other type config o r).1.backends ≡ some b
  create_unless-keeps id other type config b none r n h =
      make-keeps id other config b (map_get type r.factories) r n h
  create_unless-keeps id other type config b (some c) r n h = h

  create-keeps :
      (id other type : String) (config : C) (b : B) (r : Registry B C)
      → map_get id r.backends ≡ some b
      → map_get id (create other type config r).1.backends ≡ some b
  unfolding create
  create-keeps id other type config b r h =
      create_unless-keeps id other type config b (map_get other r.backends) r refl h

  Later-keeps :
      (id : String) (b : B) {r s : Registry B C}
      → Later r s
      → map_get id r.backends ≡ some b
      → map_get id s.backends ≡ some b
  unfolding register_factory
  Later-keeps id b now h = h
  Later-keeps id b (creates {s = t} l other type config) h =
      create-keeps id other type config b t (Later-keeps id b l h)
  Later-keeps id b (registers l type f) h = Later-keeps id b l h

  made-stored :
      (id : String) (b : B) (x : Result String B) (r : Registry B C)
      → (made id x r).0 ≡ ok b
      → map_get id (made id x r).1.backends ≡ some b
  made-stored id b (err e) r h = absurd (cc)
  made-stored id b (ok c) r h = rw (==_refl id) cc

  make-stored :
      (id : String) (config : C) (b : B) (f : Option (C → Result String B)) (r : Registry B C)
      → (make id config f r).0 ≡ ok b
      → map_get id (make id config f r).1.backends ≡ some b
  make-stored id config b none r h = absurd (cc)
  make-stored id config b (some f) r h = made-stored id b (f config) r h

  create_unless-stored :
      (id type : String) (config : C) (b : B) (o : Option B) (r : Registry B C)
      → map_get id r.backends ≡ o
      → (create_unless id type config o r).0 ≡ ok b
      → map_get id (create_unless id type config o r).1.backends ≡ some b
  create_unless-stored id type config b none r e h =
      make-stored id config b (map_get type r.factories) r h
  create_unless-stored id type config b (some c) r e h = cc

  -- After a success under the write lock the backend is in the map.
  create-stored :
      (id type : String) (config : C) (b : B) (r : Registry B C)
      → (create id type config r).0 ≡ ok b
      → map_get id (create id type config r).1.backends ≡ some b
  unfolding create
  create-stored id type config b r h =
      create_unless-stored id type config b (map_get id r.backends) r refl h

  create-finds :
      (id type : String) (config : C) (b : B) (r : Registry B C)
      → map_get id r.backends ≡ some b
      → create id type config r ≡ (ok b, r)
  unfolding create
  create-finds id type config b r h = rw h refl

  -- Once a goroutine got a backend for a configuration ID under the write lock, by creating or by finding
  -- it, and while no backend is put or removed, every goroutine gets that backend for the ID: one that
  -- asks for it from the start, and one that had missed it under the read lock and now has the write
  -- lock. Neither calls a factory, nor changes the registry.
  pub create-get_or_create :
      (id type other : String) (config config' : C) (b : B) (r s : Registry B C)
      → (id == "") ≡ false
      → (create id type config r).0 ≡ ok b
      → Later (create id type config r).1 s
      → (get_or_create id other config' s ≡ (ok b, s)) × (create id other config' s ≡ (ok b, s))
  unfolding get_or_create
  create-get_or_create id type other config config' b r s n h l =
      let found = Later-keeps id b l (create-stored id type config b r h) in
      (rw n (rw found refl), create-finds id other config' b s found)
