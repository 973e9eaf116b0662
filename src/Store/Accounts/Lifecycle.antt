-- ===== src/Store/Accounts/Lifecycle.antt =====
-- What becomes of a system account's keys (internal/store/system_account.go).
use creel.Base.{
  ℕ, zero, suc, ◌+◌, ℤ, pos, negsuc, String, Bool, true, false, none, some, ◌≡◌, refl, ap, sym, ◌∙◌,
  inl, inr, arith, Bool-cases, ltb, not, ◌==◌, ==_refl, eq_of_==, Distinct, first, update, Memᴰ,
  if◌then◌else◌,
}
use creel.Exec.{ok}
use creel.Store.Rows.{SystemAccount, SystemAccountKey}
use creel.Store.World.{World, Db, statement}
use creel.Store.Accounts.{
  NewKey, new_account_key, rotate_key, revoke_key, set_grace, set_revoked, is_live, active_of,
  live_of, live_hash, find_account, system_principal, resolve, resolve_key, resolved,
}
use creel.Store.Accounts.Found.{
  hashes, live_only, first-live_hash, first-append_none, first-append_other, exists-first,
  unused_hash, exists-update_hash,
}
use creel.Store.Accounts.Rotation.{retired, retired-hash, rotate_key-Rotated}

-- Whether a retired key still counts at a time.
abbrev pub in_grace : ℕ → ℤ → ℕ → Bool
in_grace clock (pos (suc g)) t = not (ltb (clock + suc g) t)
in_grace clock _ t = false

retired_key :
    (clock : ℕ) (grace : ℤ) (now t : ℕ) (db : Db) (h : String) (r : SystemAccountKey)
    (a : SystemAccount)
    → first (live_hash h) db.account_keys ≡ live_only (retired clock grace now r)
    → find_account r.account_id db.accounts ≡ some a
    → resolve t h db ≡ (if in_grace clock grace t then some (system_principal a) else none)
unfolding set_grace set_revoked
retired_key clock (pos (suc g)) now t db h r a e f =
    ap (resolve_key t db) e
    ∙ ap (resolved t (set_grace (clock + suc g) r)) f
    ∙ elim (Bool-cases (ltb (clock + suc g) t)) [ inl b ↦ rw b refl | inr b ↦ rw b refl ]
retired_key clock (pos zero) now t db h r a e f = ap (resolve_key t db) e
retired_key clock (negsuc g) now t db h r a e f = ap (resolve_key t db) e

-- After a rotation that succeeded the new key stands for the account at every time. A key of the
-- account that was active before stands for the account until the grace period is over, when there is
-- one, and for nobody at all otherwise. The hashes of the keys before must all be different.
pub rotate_key_supersedes :
    (clock : ℕ) (k : NewKey) (account_id : String) (grace : ℤ) (w : World) (raw : String)
    → (rotate_key clock k account_id grace w).0 ≡ ok raw
    → Distinct (hashes w.db.account_keys)
    → (r : SystemAccountKey) (t : ℕ) → Memᴰ r w.db.account_keys
    → active_of account_id r ≡ true
    → let db' = (rotate_key clock k account_id grace w).1.db in
      (a : SystemAccount) × (find_account account_id w.db.accounts ≡ some a)
      × (resolve t k.hash db' ≡ some (system_principal a))
      × (resolve t r.key_hash db'
          ≡ (if in_grace clock grace t then some (system_principal a) else none))
rotate_key_supersedes clock k account_id grace w raw h distinct r t m act =
    let z = rotate_key-Rotated clock k account_id grace w raw h in
    let db' = (rotate_key clock k account_id grace w).1.db in
    let old = update (active_of account_id) (retired clock grace z.now) w.db.account_keys in
    let new = new_account_key z.at account_id k in
    let (a, found) = exists-first (λ a. a.id == account_id) w.db.accounts z.there in
    let found' : find_account account_id db'.accounts ≡ some a =
      ap (find_account account_id) z.accounts ∙ found in
    let key : first (live_hash k.hash) db'.account_keys ≡ some new =
      ap (first (live_hash k.hash)) z.keys
      ∙ first-append_none (live_hash k.hash) old new (unused_hash k.hash old z.fresh)
          (rw (==_refl k.hash) refl) in
    let owner : r.account_id ≡ account_id = eq_of_== r.account_id account_id (ground arith) in
    let other : (k.hash == r.key_hash) ≡ false = elim (Bool-cases (k.hash == r.key_hash)) [
      | inr b ↦ b
      | inl b ↦ absurd (
          cc (
            exists-update_hash (active_of account_id) (retired clock grace z.now) k.hash
                (retired-hash clock grace z.now) w.db.account_keys r m
                (sym (eq_of_== k.hash r.key_hash b)),
            z.fresh,
          ))
    ] in
    let e : first (live_hash r.key_hash) db'.account_keys
        ≡ live_only (retired clock grace z.now r) =
      ap (first (live_hash r.key_hash)) z.keys
      ∙ first-append_other (live_hash r.key_hash) old new (rw other refl)
      ∙ first-live_hash (active_of account_id) (retired clock grace z.now)
          (retired-hash clock grace z.now) w.db.account_keys r distinct m
      ∙ rw act refl in
    (
      a,
      found,
      ap (resolve_key t db') key ∙ ap (resolved t new) found',
      retired_key clock grace z.now t db' r.key_hash r a e (rw owner found'),
    )

-- After the keys of an account were revoked, no key of the account stands for anybody, at any time,
-- under a hash that no other row has.
pub revoke_key_ends :
    (account_id : String) (w : World)
    → (revoke_key account_id w).0 ≡ ok tt
    → Distinct (hashes w.db.account_keys)
    → (r : SystemAccountKey) (t : ℕ) → Memᴰ r w.db.account_keys
    → (r.account_id == account_id) ≡ true
    → resolve t r.key_hash (revoke_key account_id w).1.db ≡ none
unfolding revoke_key statement set_revoked
revoke_key_ends account_id w h distinct r t m owner = elim (Bool-cases (w.env.fails w.tick)) [
  | inl e ↦ absurd (cc (rw e at h))
  | inr e ↦
      let f : first (live_hash r.key_hash)
            (update (live_of account_id) (set_revoked (w.env.now w.tick)) w.db.account_keys)
          ≡ none =
        first-live_hash (live_of account_id) (set_revoked (w.env.now w.tick)) (λ k. refl)
          w.db.account_keys r distinct m
        ∙ elim (Bool-cases (is_live r.status)) [
          | inl b ↦ rw (owner, b) refl
          | inr b ↦ rw (owner, b, b) refl
        ] in
      let keys = update (live_of account_id) (set_revoked (w.env.now w.tick)) w.db.account_keys in
      rw e (ap (resolve_key t (record w.db { account_keys = keys })) f)
]
