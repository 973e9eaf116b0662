-- ===== src/Store/Accounts/Rotation.antt =====
-- The tables after RotateKey (internal/store/system_account.go).
use creel.Base.{
  ℕ, zero, suc, ◌+◌, ℤ, pos, negsuc, String, true, false, [], ◌∷◌, ◌++◌, ◌≡◌, refl, sym, inl, inr,
  arith, Bool-cases, not, ◌&&◌, ◌==◌, exists, update, subst,
}
use creel.Exec.{Exec, ok, pure, ◌>>◌}
use creel.Store.Rows.{SystemAccountKey}
use creel.Store.World.{World, Db, Error, statement}
use creel.Store.Jobs.{begin, commit, rollback_on_error}
use creel.Store.Accounts.{
  NewKey, new_account_key, insert_key, retire_keys, rotate_key, set_grace, set_revoked, active_of,
}

-- What a rotation makes of an active key.
abbrev pub retired : ℕ → ℤ → ℕ → SystemAccountKey → SystemAccountKey
retired clock (pos (suc g)) now = set_grace (clock + suc g)
retired clock _ now = set_revoked now

pub retired-hash :
    (clock : ℕ) (grace : ℤ) (now : ℕ) (k : SystemAccountKey)
    → (retired clock grace now k).key_hash ≡ k.key_hash
unfolding set_grace set_revoked
retired-hash clock (pos (suc g)) now k = refl
retired-hash clock (pos zero) now k = refl
retired-hash clock (negsuc g) now k = refl

-- A rotation that succeeded.
pub record Rotated (clock : ℕ) (k : NewKey) (account_id : String) (grace : ℤ) (db db' : Db)
    : Type 0 where
  pub now : ℕ
  pub at : World
  pub there : exists (λ a. a.id == account_id) db.accounts ≡ true
  pub fresh :
      exists
        (λ r. r.key_hash == k.hash)
        (update (active_of account_id) (retired clock grace now) db.account_keys)
      ≡ false
  pub accounts : db'.accounts ≡ db.accounts
  pub keys :
      db'.account_keys
      ≡ update (active_of account_id) (retired clock grace now) db.account_keys
        ++ new_account_key at account_id k ∷ []

abbrev retire_in : ℕ → String → ℤ → World → Db
retire_in clock account_id grace w = record w.db {
  account_keys =
      update (active_of account_id) (retired clock grace (w.env.now w.tick)) w.db.account_keys;
}

retire_keys-statement :
    (clock : ℕ) (account_id : String) (grace : ℤ)
    → retire_keys clock account_id grace
      ≡ statement "updating old keys" (λ w. (ok tt, retire_in clock account_id grace w))
unfolding retire_keys
retire_keys-statement clock account_id (pos (suc g)) = refl
retire_keys-statement clock account_id (pos zero) = refl
retire_keys-statement clock account_id (negsuc g) = refl

abbrev rotation : Exec World Error (Unit {0}) → NewKey → String → Exec World Error String
rotation retire k account_id = rollback_on_error (do
  begin
  retire
  insert_key "inserting new key" account_id k
  commit "committing transaction"
  pure k.raw)

rotation-Rotated :
    (clock : ℕ) (k : NewKey) (account_id : String) (grace : ℤ) (w : World) (raw : String)
    → let retire =
        statement "updating old keys" (λ v. (ok tt, retire_in clock account_id grace v)) in
      (rotation retire k account_id w).0 ≡ ok raw
      → Rotated clock k account_id grace w.db (rotation retire k account_id w).1.db
unfolding rollback_on_error begin commit insert_key statement
rotation-Rotated clock k account_id grace w raw h = elim (Bool-cases (w.env.fails w.tick)) [
  | inl e ↦ absurd (ground arith)
  | inr e ↦ elim (Bool-cases (w.env.fails (suc w.tick))) [
    | inl f ↦ absurd (ground arith)
    | inr f ↦ elim (Bool-cases (w.env.fails (suc (suc w.tick)))) [
      | inl g ↦ absurd (ground arith)
      | inr g ↦
          let now = w.env.now (suc w.tick) in
          let there = exists (λ a. a.id == account_id) w.db.accounts in
          let taken =
            exists (λ r. r.key_hash == k.hash)
              (update (active_of account_id) (retired clock grace now) w.db.account_keys) in
          elim (Bool-cases (there && not taken)) [
            | inr b ↦ absurd (cc (rw (e, f, g, b) at h))
            | inl b ↦ elim (Bool-cases (w.env.fails (suc (suc (suc w.tick))))) [
              | inl c ↦ absurd (cc (rw (e, f, g, b, c) at h))
              | inr c ↦ record {
                now = now;
                at = record w {
                  tick = suc (suc w.tick);
                  db = retire_in clock account_id grace (record w { tick = suc w.tick });
                };
                there = ground arith;
                fresh = ground arith;
                accounts = rw (e, f, g, b, c) refl;
                keys = rw (e, f, g, b, c) refl;
              }
            ]
          ]
    ]
  ]
]

pub rotate_key-Rotated :
    (clock : ℕ) (k : NewKey) (account_id : String) (grace : ℤ) (w : World) (raw : String)
    → (rotate_key clock k account_id grace w).0 ≡ ok raw
    → Rotated clock k account_id grace w.db (rotate_key clock k account_id grace w).1.db
unfolding rotate_key
rotate_key-Rotated clock k account_id grace w raw =
    subst
      (λ m.
        (rotation m k account_id w).0 ≡ ok raw
        → Rotated clock k account_id grace w.db (rotation m k account_id w).1.db)
      (sym (retire_keys-statement clock account_id grace))
      (rotation-Rotated clock k account_id grace w raw)
