-- ===== src/Store/Accounts.antt =====
-- internal/store/system_account.go: system accounts and their API keys. The clock of the process
-- (`time.Now`), a fresh key and the hash function are arguments.
pub mod Found
pub mod Rotation
pub mod Lifecycle
pub mod Creation
use Prim.Native.String
use creel.Base.{
  ℕ, zero, suc, ◌+◌, ℤ, pos, negsuc, String, Bool, true, false, List, [], ◌∷◌, ◌++◌, Option, none,
  some, ◌&&◌, ◌||◌, not, ltb, leb, ◌==◌, select, first, exists, update, if◌then◌else◌,
}
use creel.Exec.{Exec, Result, ok, err, pure, ◌>>=◌, ◌>>◌}
use creel.Store.Rows.{
  SystemAccount, SystemAccountKey, KeyStatus, active, grace_period, revoked, Principal,
}
use creel.Store.World.{World, Db, Error, statement}
use creel.Store.Jobs.{begin, commit, rollback_on_error}

-- `s + t` on strings.
abbrev pub append_text : String → String → String
append_text String.[] t = t
append_text (String.◌∷◌ c s) t = String.◌∷◌ c (append_text s t)

-- `s[:n]`.
abbrev pub take_text : ℕ → String → String
take_text zero s = String.[]
take_text (suc n) String.[] = String.[]
take_text (suc n) (String.◌∷◌ c s) = String.◌∷◌ c (take_text n s)

-- auth.GenerateAPIKey: the raw key, of which the hash and the prefix are stored.
pub record NewKey : Type 0 where
  pub raw : String
  pub hash : String

-- `raw[:len(apiKeyPrefix)+8]`.
abbrev pub key_prefix : NewKey → String
key_prefix k = take_text 17 k.raw

abbrev pub new_account : World → String → String → SystemAccount
new_account w name description = record {
  id = w.env.new_id w.tick;
  name = name;
  description = description;
  principal = append_text "system:" name;
  created_at = w.env.now w.tick;
}

abbrev pub same_account : SystemAccount → SystemAccount → Bool
same_account a b = a.name == b.name || a.principal == b.principal

-- The INSERT of an account: name and principal are unique.
unfoldable pub insert_account : String → String → Exec World Error SystemAccount
unfolding statement
insert_account name description = statement "inserting system account" λ w.
    let a = new_account w name description in
    if exists (same_account a) w.db.accounts
    then (err "inserting system account", w.db)
    else (ok a, record w.db { accounts = w.db.accounts ++ a ∷ [] })

abbrev pub new_account_key : World → String → NewKey → SystemAccountKey
new_account_key w account_id k = record {
  id = w.env.new_id w.tick;
  account_id = account_id;
  key_hash = k.hash;
  key_prefix = key_prefix k;
  status = active;
  grace_expires_at = none;
  created_at = w.env.now w.tick;
  revoked_at = none;
}

-- The INSERT of a key: the account must be there, and the hash is unique.
unfoldable pub insert_key : Error → String → NewKey → Exec World Error (Unit {0})
unfolding statement
insert_key msg account_id k = statement msg λ w.
    if exists (λ a. a.id == account_id) w.db.accounts
      && not (exists (λ r. r.key_hash == k.hash) w.db.account_keys)
    then (
      ok tt,
      record w.db { account_keys = w.db.account_keys ++ new_account_key w account_id k ∷ [] },
    )
    else (err msg, w.db)

-- SystemAccountStore.Create.
unfoldable pub create : NewKey → String → String → Exec World Error (SystemAccount × String)
unfolding rollback_on_error begin commit insert_account insert_key
create k name description = rollback_on_error (do
  begin
  account ← insert_account name description
  insert_key "inserting API key" account.id k
  commit "committing transaction"
  pure (account, k.raw))

-- ORDER BY created_at.
abbrev insert_by_time : SystemAccount → List SystemAccount → List SystemAccount
insert_by_time a [] = a ∷ []
insert_by_time a (b ∷ bs) =
    let rest = insert_by_time a bs in if leb a.created_at b.created_at then a ∷ b ∷ bs else b ∷ rest

unfoldable pub accounts_by_created_at : List SystemAccount → List SystemAccount
accounts_by_created_at [] = []
accounts_by_created_at (a ∷ accounts) = insert_by_time a (accounts_by_created_at accounts)

-- SystemAccountStore.List.
unfoldable pub list : Exec World Error (List SystemAccount)
unfolding statement accounts_by_created_at
list = statement "listing system accounts" λ w. (ok (accounts_by_created_at w.db.accounts), w.db)

-- SystemAccountStore.Delete; the keys go with the account.
unfoldable pub delete : String → Exec World Error (Unit {0})
unfolding statement
delete id = statement "deleting system account" λ w.
    if exists (λ a. a.id == id) w.db.accounts
    then (
      ok tt,
      record w.db {
        accounts = select (λ a. not (a.id == id)) w.db.accounts;
        account_keys = select (λ k. not (k.account_id == id)) w.db.account_keys;
      },
    )
    else (err "system account not found", w.db)

abbrev pub is_active_key : KeyStatus → Bool
is_active_key active = true
is_active_key _ = false

-- `status IN ('active', 'grace_period')`.
abbrev pub is_live : KeyStatus → Bool
is_live active = true
is_live grace_period = true
is_live revoked = false

unfoldable pub set_grace : ℕ → SystemAccountKey → SystemAccountKey
set_grace expiry k = record k { status = grace_period; grace_expires_at = some expiry }

unfoldable pub set_revoked : ℕ → SystemAccountKey → SystemAccountKey
set_revoked now k = record k { status = revoked; revoked_at = some now }

abbrev pub active_of : String → SystemAccountKey → Bool
active_of account_id k = k.account_id == account_id && is_active_key k.status

-- The UPDATE of the old keys: a positive grace period starts now, by the process's clock.
unfoldable pub retire_keys : ℕ → String → ℤ → Exec World Error (Unit {0})
unfolding statement set_grace set_revoked
retire_keys clock account_id (pos (suc g)) = statement "updating old keys" λ w. (
  ok tt,
  record w.db {
    account_keys = update (active_of account_id) (set_grace (clock + suc g)) w.db.account_keys;
  },
)
retire_keys clock account_id _ = statement "updating old keys" λ w. (
  ok tt,
  record w.db {
    account_keys = update (active_of account_id) (set_revoked (w.env.now w.tick)) w.db.account_keys;
  },
)

-- SystemAccountStore.RotateKey.
unfoldable pub rotate_key : ℕ → NewKey → String → ℤ → Exec World Error String
unfolding rollback_on_error begin commit retire_keys insert_key
rotate_key clock k account_id grace = rollback_on_error (do
  begin
  retire_keys clock account_id grace
  insert_key "inserting new key" account_id k
  commit "committing transaction"
  pure k.raw)

abbrev pub live_of : String → SystemAccountKey → Bool
live_of account_id k = k.account_id == account_id && is_live k.status

-- SystemAccountStore.RevokeKey.
unfoldable pub revoke_key : String → Exec World Error (Unit {0})
unfolding statement set_revoked
revoke_key account_id = statement "revoking keys" λ w. (
  ok tt,
  record w.db {
    account_keys = update (live_of account_id) (set_revoked (w.env.now w.tick)) w.db.account_keys;
  },
)

abbrev pub find_account : String → List SystemAccount → Option SystemAccount
find_account id = first (λ a. a.id == id)

abbrev pub live_hash : String → SystemAccountKey → Bool
live_hash hash k = k.key_hash == hash && is_live k.status

-- `status == "grace_period" && graceExpiresAt != nil && time.Now().After(*graceExpiresAt)`.
abbrev pub has_expired : ℕ → KeyStatus → Option ℕ → Bool
has_expired clock grace_period (some expiry) = ltb expiry clock
has_expired clock _ _ = false

abbrev pub system_principal : SystemAccount → Principal
system_principal a = record { id = a.principal; groups = []; is_system = true }

abbrev pub resolved : ℕ → SystemAccountKey → Option SystemAccount → Option Principal
resolved clock k none = none
resolved clock k (some a) =
    if has_expired clock k.status k.grace_expires_at then none else some (system_principal a)

-- The join of a key with its account.
abbrev pub resolve_key : ℕ → Db → Option SystemAccountKey → Option Principal
resolve_key clock db none = none
resolve_key clock db (some k) = resolved clock k (find_account k.account_id db.accounts)

abbrev pub resolve : ℕ → String → Db → Option Principal
resolve clock hash db = resolve_key clock db (first (live_hash hash) db.account_keys)

-- SystemAccountStore.LookupKeyHash.
unfoldable pub lookup_key_hash : ℕ → String → Exec World Error (Option Principal)
unfolding statement
lookup_key_hash clock hash = statement "looking up key" λ w. (ok (resolve clock hash w.db), w.db)
