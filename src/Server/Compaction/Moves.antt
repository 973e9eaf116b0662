-- ===== src/Server/Compaction/Moves.antt =====
-- Runs of the handlers in internal/server/compaction.go as relations on the table of chunks.
use creel.Base.{Bool, true, false, List, ◌≡◌, refl, sym, ◌∙◌, arith, inl, inr, ap, subst}
use creel.Exec.{Exec, ok, pure, guard, or_fail, ◌>>=◌, ◌>>◌, Result-cases, bind-ok}
use creel.Store.Rows.{Chunk}
use creel.Store.World.{World}

-- A run that succeeds relates the chunks before, its result and the chunks after.
pub record Moves {E A : Type 0} (Q : List Chunk → A → List Chunk → Type 0) (m : Exec World E A)
    : Type 0 where
  pub at : (w : World) (a : A) → (m w).0 ≡ ok a → Q w.db.chunks a (m w).1.db.chunks

abbrev pub Same : {A : Type 0} → List Chunk → A → List Chunk → Type 0
Same cs a ds = ds ≡ cs

module _ {E A B : Type 0} {Q : List Chunk → A → List Chunk → Type 0} where
  pub after_moving :
      (m : Exec World E A) (k : A → Exec World E B) (w : World) (b : B)
      → Moves Q m
      → ((m >>= k) w).0 ≡ ok b
      → (a : A) × (v : World) × Q w.db.chunks a v.db.chunks
        × ((k a v).0 ≡ ok b)
        × ((m >>= k) w ≡ k a v)
  after_moving m k w b r h =
      let (a, e, f) = bind-ok m k w h in (a, (m w).1, r.at w a e, sym (ap (λ x. x.0) f) ∙ h, f)

module _ {E A B : Type 0} {T : List Chunk → B → List Chunk → Type 0} where
  -- A step that keeps the chunks may be passed over.
  pub pass_over :
      (m : Exec World E A) (k : A → Exec World E B)
      → Moves Same m
      → ((a : A) → Moves T (k a))
      → Moves T (m >>= k)
  pass_over m k r s = record {
    at = λ w b h.
        let (a, v, q, y, e) = after_moving m k w b r h in
        subst (λ x. T w.db.chunks b x.1.db.chunks) (sym e)
          (subst (λ cs. T cs b (k a v).1.db.chunks) q ((s a).at v b y));
  }

  pub pass_over_then :
      (m : Exec World E A) (k : Exec World E B) → Moves Same m → Moves T k → Moves T (m >> k)
  pass_over_then m k r s = pass_over m (λ a. k) r (λ a. s)

  -- Two steps that change the chunks, one after the other.
  pub step-Moves :
      {Q : List Chunk → A → List Chunk → Type 0} {R : A → List Chunk → B → List Chunk → Type 0}
      (m : Exec World E A) (k : A → Exec World E B)
      → Moves Q m
      → ((a : A) → Moves (R a) (k a))
      → ((cs : List Chunk) (a : A) (es : List Chunk) (b : B) (ds : List Chunk)
          → Q cs a es
          → R a es b ds
          → T cs b ds)
      → Moves T (m >>= k)
  step-Moves m k r s t = record {
    at = λ w b h.
        let (a, v, q, y, e) = after_moving m k w b r h in
        subst (λ x. T w.db.chunks b x.1.db.chunks) (sym e)
          (t w.db.chunks a v.db.chunks b (k a v).1.db.chunks q ((s a).at v b y));
  }

pub or_fail-Moves :
    {E F A : Type 0} {Q : List Chunk → A → List Chunk → Type 0} (m : Exec World E A) (e : F)
    → Moves Q m
    → Moves Q (or_fail m e)
or_fail-Moves {Q = Q} m e r = record {
  at = λ w a h. elim (Result-cases (m w).0) [
    | inl (b, s) ↦
        let same : b ≡ a = ground arith in
        subst (λ x. Q w.db.chunks x (m w).1.db.chunks) same (r.at w b s)
    | inr (x, s) ↦ absurd (ground arith)
  ];
}

module _ {E : Type 0} where
  -- What keeps all tables keeps the chunks.
  pub reads-Moves :
      {A : Type 0} (m : Exec World E A) → ((w : World) → (m w).1.db ≡ w.db) → Moves Same m
  reads-Moves m h = record { at = λ w a e. ap (λ db. db.chunks) (h w) }

  pub pure-Moves : {A : Type 0} (a : A) → Moves {E = E} Same (pure a)
  pure-Moves a = record { at = λ w b e. refl }

  pub value-Moves : {A : Type 0} (a : A) → Moves {E = E} (λ cs b ds. (b ≡ a) × (ds ≡ cs)) (pure a)
  value-Moves a = record { at = λ w b e. (ground arith, refl) }

  pub guard-Moves : (b : Bool) (e : E) → Moves Same (guard b e)
  guard-Moves true e = record { at = λ w a h. refl }
  guard-Moves false e = record { at = λ w a h. refl }

  pub unmoved_chain :
      {A B : Type 0} (m : Exec World E A) (k : A → Exec World E B)
      → Moves Same m
      → ((a : A) → Moves Same (k a))
      → Moves Same (m >>= k)
  unmoved_chain m k r s = record {
    at = λ w b h.
        let (a, v, q, y, e) = after_moving m k w b r h in
        ap (λ x. x.1.db.chunks) e ∙ (s a).at v b y ∙ q;
  }
