-- ===== src/Config/Valid.antt =====
-- What a loaded configuration can be relied on for (internal/config/load.go).
use creel.Base.{
  ℕ, zero, suc, ◌≤◌, ℤ, pos, negsuc, String, Bool, true, false, ◌≡◌, ◌≢◌, refl, inl, inr, ◌⊎◌,
  arith, Bool-cases, Option-cases, not, ◌==◌, string_dec, subst, eqb, if◌then◌else◌,
}
use creel.Exec.{Result, ok, Result-cases}
use creel.Store.World.{Error}
use creel.Config.{Config}
use creel.Config.Load.{
  Surroundings, apply_defaults, apply_env_overrides, or_number, or_text, is_port, byte_length,
  is_hex, need, validate, load, completed,
}

-- A number of a TCP port.
abbrev pub IsPort : ℤ → Type 0
IsPort p = (n : ℕ) × (p ≡ pos n) × (1 ≤ n) × (n ≤ 65535)

-- No key, or 32 bytes in hexadecimal digits.
abbrev pub IsKey : String → Type 0
IsKey k = (k ≡ "") ⊎ ((byte_length k ≡ 64) × (is_hex k ≡ true))

pub record IsValid (c : Config) : Type 0 where
  pub host : c.postgres.host ≢ ""
  pub user : c.postgres.user ≢ ""
  pub name : c.postgres.name ≢ ""
  pub grpc_port : IsPort c.server.grpc_port
  pub rest_port : IsPort c.server.rest_port
  pub metrics_port : IsPort c.server.metrics_port
  pub encryption_key : IsKey c.encryption_key
  pub principal_claim : c.auth.principal_claim ≢ ""
  pub backend_type : c.vector_backend.backend_type ≢ ""
  pub postgres_port : c.postgres.port ≢ pos 0
  pub schema : c.postgres.schema ≢ ""
  pub sslmode : c.postgres.sslmode ≢ ""
  pub concurrency : c.workers.concurrency ≢ pos 0
  pub poll_interval : c.workers.poll_interval ≢ pos 0

need-ok :
    (b : Bool) (e : Error) (rest : Result Error (Unit {0}))
    → need b e rest ≡ ok tt
    → (b ≡ true) × (rest ≡ ok tt)
need-ok true e rest h = (refl, h)
need-ok false e rest h = cc

nonempty : (s : String) → not (s == "") ≡ true → s ≢ ""
nonempty s h = ground arith

or_text-nonempty : (s d : String) → (d == "") ≡ false → or_text s d ≢ ""
or_text-nonempty s d h = elim (Bool-cases (s == "")) [
  | inl e ↦ rw e (ground arith)
  | inr e ↦ rw e (ground arith)
]

or_number-nonzero : (n : ℤ) (k : ℕ) → or_number n (pos (suc k)) ≢ pos 0
or_number-nonzero (pos zero) k = ground arith
or_number-nonzero (pos (suc n)) k = ground arith
or_number-nonzero (negsuc n) k = ground arith

is_port-IsPort : (p : ℤ) → is_port p ≡ true → IsPort p
is_port-IsPort (pos n) h = (n, refl, ground arith, ground arith)
is_port-IsPort (negsuc n) h = cc

default_claim : ("sub" == "") ≡ false
unfolding string_dec
default_claim = refl

default_backend : ("pgvector" == "") ≡ false
unfolding string_dec
default_backend = refl

default_schema : ("creel" == "") ≡ false
unfolding string_dec
default_schema = refl

default_sslmode : ("disable" == "") ≡ false
unfolding string_dec
default_sslmode = refl

ok_same : (a b : Config) → ◌≡◌ {A = Result Error Config} (ok a) (ok b) → a ≡ b
ok_same a b h = cc

-- What validate asks of the key.
checked-IsKey :
    (k : String) (e e' : Error)
    → (if k == "" then ok tt else need (eqb (byte_length k) 64) e (need (is_hex k) e' (ok tt)))
      ≡ ok tt
    → IsKey k
checked-IsKey k e e' h = elim (Bool-cases (k == "")) [
  | inl b ↦ inl (ground arith)
  | inr b ↦
      let (length_ok, rest) = need-ok _ e _ (rw b at h) in
      inr (ground arith, (need-ok _ e' _ rest).0)
]

completed-IsValid :
    (s : Surroundings) (c : Config) → validate (completed s c) ≡ ok tt → IsValid (completed s c)
unfolding validate apply_defaults
completed-IsValid s c h =
    let d = apply_env_overrides s c in
    let (host, h1) = need-ok _ _ _ h in
    let (user, h2) = need-ok _ _ _ h1 in
    let (name, h3) = need-ok _ _ _ h2 in
    let (grpc, h4) = need-ok _ _ _ h3 in
    let (rest, h5) = need-ok _ _ _ h4 in
    let (metrics, h6) = need-ok _ _ _ h5 in
    record {
      host = nonempty _ host;
      user = nonempty _ user;
      name = nonempty _ name;
      grpc_port = is_port-IsPort _ grpc;
      rest_port = is_port-IsPort _ rest;
      metrics_port = is_port-IsPort _ metrics;
      encryption_key = checked-IsKey _ _ _ h6;
      principal_claim = or_text-nonempty _ "sub" default_claim;
      backend_type = or_text-nonempty _ "pgvector" default_backend;
      postgres_port = or_number-nonzero d.postgres.port 5431;
      schema = or_text-nonempty _ "creel" default_schema;
      sslmode = or_text-nonempty _ "disable" default_sslmode;
      concurrency = or_number-nonzero d.workers.concurrency 3;
      poll_interval = or_number-nonzero d.workers.poll_interval 4_999_999_999;
    }

-- A configuration that loads has a database host, user and name, three ports between 1 and 65535, and
-- either no encryption key or one of 64 hexadecimal digits; no setting with a default is left empty
-- or zero.
pub load-IsValid : (s : Surroundings) (path : String) (c : Config) → load s path ≡ ok c → IsValid c
unfolding load
load-IsValid s path c h = elim (Option-cases (s.read_file path)) [
  | inl e ↦ absurd (cc (rw (load, e) at h))
  | inr (bytes, e) ↦ elim (Option-cases (s.unmarshal bytes)) [
    | inl f ↦ absurd (cc (rw (load, e, f) at h))
    | inr (raw, f) ↦ elim (Result-cases (validate (completed s raw))) [
      | inr (x, r) ↦ absurd (cc (rw (load, e, f, r) at h))
      | inl (u, r) ↦
          let same : completed s raw ≡ c = ok_same (completed s raw) c (rw (load, e, f, r) at h) in
          subst IsValid same (completed-IsValid s raw r)
    ]
  ]
]
