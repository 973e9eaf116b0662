-- ===== src/Worker/Status/Marking.antt =====
-- Rules for what a failed step of internal/worker leaves behind.
use creel.Base.{
  ℕ, suc, String, Bool, true, false, Option, none, some, ◌≡◌, refl, inl, inr, arith, Bool-cases,
  exists, update, ◌==◌, if◌then◌else◌, List, [], ◌∷◌,
}
use creel.Exec.{Exec, Result, ok, err, pure, fail, or_fail, ◌>>=◌, ◌>>◌, Result-cases}
use creel.Store.Rows.{Document, DocumentStatus, failed}
use creel.Store.World.{World, Error, statement}
use creel.Store.Chunks.{find_document}
use creel.Store.Documents
use creel.Store.Documents.{set_status}
use creel.Store.Jobs.{has_document}
use creel.Worker.Status.{fail_document, or_fail_document, guard_document}

abbrev pub status_of : Option Document → Option DocumentStatus
status_of none = none
status_of (some d) = some d.status

abbrev pub document_status : String → World → Option DocumentStatus
document_status id w = status_of (find_document id w.db.documents)

-- The document is `failed`, or it is not there, or the last statement was one that failed.
pub data Marked (id : String) (w : World) : Type 0 where
  marked : document_status id w ≡ some failed → Marked id w
  missing : has_document w.db.documents id ≡ false → Marked id w
  disconnected : (n : ℕ) → w.tick ≡ suc n → w.env.fails n ≡ true → Marked id w

pub set_status-found :
    (id : String) (s : DocumentStatus) (now : ℕ) (ds : List Document)
    → exists (λ d. d.id == id) ds ≡ true
    → status_of (find_document id (update (λ d. d.id == id) (set_status s now) ds)) ≡ some s
unfolding set_status
set_status-found id s now [] h = cc
set_status-found id s now (d ∷ ds) h = elim (Bool-cases (d.id == id)) [
  | inl e ↦ ground arith
  | inr e ↦ ground (arith, set_status-found id s now ds)
]

-- What a write of the status does: it sets it, or its failure is one of the two others.
pub data Written (id : String) (s : DocumentStatus) (w : World)
    : Result Error (Unit {0}) → Type 0 where
  written : document_status id w ≡ some s → Written id s w (ok tt)
  absent : (e : Error) → has_document w.db.documents id ≡ false → Written id s w (err e)
  cut : (e : Error) (n : ℕ) → w.tick ≡ suc n → w.env.fails n ≡ true → Written id s w (err e)

pub update_status-Written :
    (id : String) (s : DocumentStatus) (w : World)
    → Written id s (Documents.update_status id s w).1 (Documents.update_status id s w).0
unfolding Documents.update_status statement
update_status-Written id s w = elim (Bool-cases (w.env.fails w.tick)) [
  | inl e ↦ rw e (cut _ w.tick refl e)
  | inr e ↦ elim (Bool-cases (has_document w.db.documents id)) [
    | inl h ↦ rw (e, h) (written (set_status-found id s (w.env.now w.tick) w.db.documents h))
    | inr h ↦ rw (e, h) (absent _ h)
  ]
]

-- An error of `m` leaves the document marked.
pub record FailsMarked (id : String) {A : Type 0} (m : Exec World Error A) : Type 0 where
  pub at : (w : World) (e : Error) → (m w).0 ≡ err e → Marked id (m w).1

module _ (id : String) where
  written-Marked :
      (s : DocumentStatus) (w : World) (r : Result Error (Unit {0})) (e : Error)
      → Written id s w r
      → r ≡ err e
      → Marked id w
  written-Marked s w r e (written h) q = cc
  written-Marked s w r e (absent x h) q = missing h
  written-Marked s w r e (cut x n t f) q = disconnected n t f

  -- The last write of a worker, which may be of another status.
  pub status-FailsMarked :
      (s : DocumentStatus) (e : Error) → FailsMarked id (or_fail (Documents.update_status id s) e)
  status-FailsMarked s e = record {
    at = λ w x h. elim (Result-cases (Documents.update_status id s w).0) [
      | inl (a, q) ↦ absurd (ground arith)
      | inr (y, q) ↦ written-Marked s _ _ y (update_status-Written id s w) q
    ];
  }

  failed-Marked :
      (A : Type 0) (msg e : Error) (w : World) (r : Result Error (Unit {0}))
      → Written id failed w r
      → Marked id ((or_fail (λ v. (r, w)) msg >> fail {A = A} e) w).1
  failed-Marked A msg e w r (written h) = marked h
  failed-Marked A msg e w r (absent x h) = missing h
  failed-Marked A msg e w r (cut x n t f) = disconnected n t f

  fail_document-Marked :
      (A : Type 0) (set_msg msg : Error) (w : World)
      → Marked id (fail_document {A = A} id set_msg msg w).1
  unfolding fail_document
  fail_document-Marked A set_msg msg w =
      failed-Marked A set_msg msg (Documents.update_status id failed w).1
        (Documents.update_status id failed w).0 (update_status-Written id failed w)

  pub fail_document-FailsMarked :
      {A : Type 0} (set_msg msg : Error) → FailsMarked id (fail_document {A = A} id set_msg msg)
  fail_document-FailsMarked {A} set_msg msg = record {
    at = λ w e h. fail_document-Marked A set_msg msg w;
  }

  pub step-FailsMarked :
      {A : Type 0} (m : Exec World Error A) (set_msg msg : Error)
      → FailsMarked id (or_fail_document m id set_msg msg)
  step-FailsMarked {A} m set_msg msg = record {
    at = λ w e h. elim (Result-cases (m w).0) [
      | inl (a, q) ↦ absurd (ground arith)
      | inr (x, q) ↦ rw q (fail_document-Marked A set_msg msg (m w).1)
    ];
  }

  pub guard-FailsMarked :
      (b : Bool) (set_msg msg : Error) → FailsMarked id (guard_document b id set_msg msg)
  guard-FailsMarked true set_msg msg = record { at = λ w e h. absurd (cc) }
  guard-FailsMarked false set_msg msg = fail_document-FailsMarked set_msg msg

  pub pure-FailsMarked : {A : Type 0} (a : A) → FailsMarked id (pure a)
  pure-FailsMarked a = record { at = λ w e h. absurd (cc) }

  pub if-FailsMarked :
      {A : Type 0} (b : Bool) {m n : Exec World Error A}
      → FailsMarked id m
      → FailsMarked id n
      → FailsMarked id (if b then m else n)
  if-FailsMarked true h k = h
  if-FailsMarked false h k = k

  pub bind-FailsMarked :
      {A B : Type 0} {m : Exec World Error A} {k : A → Exec World Error B}
      → FailsMarked id m
      → ((a : A) → FailsMarked id (k a))
      → FailsMarked id (m >>= k)
  bind-FailsMarked {A} {B} {m} {k} h c = record {
    at = λ w e q. elim (Result-cases (m w).0) [
      | inl (a, r) ↦ rw r ((c a).at (m w).1 e (rw r at q))
      | inr (x, r) ↦ rw r (h.at w x r)
    ];
  }

pub ruleset marking_rules = (
  status-FailsMarked, fail_document-FailsMarked, step-FailsMarked, guard-FailsMarked,
  pure-FailsMarked, if-FailsMarked,
)
