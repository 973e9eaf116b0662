-- ===== src/Auth/Middleware/Revoked.antt =====
-- A revoked key at the interceptor (internal/auth/middleware.go, internal/store/system_account.go).
use creel.Base.{
  ℕ, String, true, false, List, Option, none, ◌≡◌, refl, ap, ◌∙◌, Memᴰ, Distinct, ◌==◌, arith,
  subst,
}
use creel.Exec.{Result, ok, err}
use creel.Store.Rows.{Principal, SystemAccountKey}
use creel.Store.World.{World, Db}
use creel.Store.Accounts.{revoke_key, resolve}
use creel.Store.Accounts.Found.{hashes}
use creel.Store.Accounts.Lifecycle.{revoke_key_ends}
use creel.Auth.ApiKey.{PrincipalMap, find_principal, is_api_key}
use creel.Auth.Oidc.{ProviderEntry}
use creel.Auth.Middleware.{is_public, extract_bearer_token, intercept}
use creel.Auth.Middleware.Admission.{
  validator, Credential, configured, stored, verified, Admission, refused, let_in, intercept_admits,
}
use creel.Server.Status.{Handler, Code}

module _ (hash : String → String) (static_keys : PrincipalMap) (clock : ℕ)
    (oidc : List ProviderEntry) where
  resolve-congr :
      (h : String) (db db' : Db)
      → db.account_keys ≡ db'.account_keys
      → db.accounts ≡ db'.accounts
      → resolve clock h db ≡ resolve clock h db'
  resolve-congr h db db' keys accounts =
      ap (λ ks. resolve clock h (record db { account_keys = ks })) keys
      ∙ ap (λ as'. resolve clock h (record db' { accounts = as' })) accounts

  no_credential :
      (token : String) (db : Db) (p : Principal)
      → is_api_key token ≡ true
      → find_principal (hash token) static_keys ≡ none
      → resolve clock (hash token) db ≡ none
      → ¬ Credential hash static_keys clock oidc token db p
  no_credential token db p api no_static gone (configured a q) = cc
  no_credential token db p api no_static gone (stored a n q) = cc
  no_credential token db p api no_static gone (verified n e m q) = cc

  without_credential :
      {A : Type 0} (authorization : Option (List String)) (handler : Option Principal → Handler A)
      (token : String) (db : Db) (r : Result Code A × World)
      → ((v : World) → extract_bearer_token authorization v ≡ (ok token, v))
      → ((p : Principal) → ¬ Credential hash static_keys clock oidc token db p)
      → Admission hash static_keys clock oidc authorization handler db r
      → (e : Code) × (r.0 ≡ err e) × (r.1.db ≡ db)
  without_credential authorization handler token db r given never (refused e w same) =
      (e, refl, same)
  without_credential authorization handler token db r given never (let_in token' p w v t c same) =
      let same_token : token' ≡ token = ground (arith, given v, t) in
      absurd (never p (subst (λ s. Credential hash static_keys clock oidc s db p) same_token c))

  -- Once the keys of an account are revoked, every request that carries one of them is refused and
  -- changes nothing, unless the key is configured too: the hashes in the table of keys are distinct, the
  -- method is not public, and the tables of keys and accounts are those that the revocation left.
  pub revoked_key_refused :
      {A : Type 0} (account_id : String) (w : World)
      → (revoke_key account_id w).0 ≡ ok tt
      → Distinct (hashes w.db.account_keys)
      → (r : SystemAccountKey) → Memᴰ r w.db.account_keys
      → (r.account_id == account_id) ≡ true
      → (token : String) → is_api_key token ≡ true
      → hash token ≡ r.key_hash
      → find_principal (hash token) static_keys ≡ none
      → (method : String) (authorization : Option (List String))
        (handler : Option Principal → Handler A) (v : World)
      → is_public method ≡ false
      → ((u : World) → extract_bearer_token authorization u ≡ (ok token, u))
      → v.db.account_keys ≡ (revoke_key account_id w).1.db.account_keys
      → v.db.accounts ≡ (revoke_key account_id w).1.db.accounts
      → (e : Code) × ((intercept
            (validator hash static_keys clock)
            oidc
            method
            authorization
            handler
            v).0
          ≡ err e)
        × ((intercept (validator hash static_keys clock) oidc method authorization handler v).1.db
            ≡ v.db)
  revoked_key_refused account_id w revoked distinct r m owner token api same no_static method
        authorization handler v private given keys accounts =
      let gone : resolve clock (hash token) v.db ≡ none =
        ap (λ h. resolve clock h v.db) same
        ∙ resolve-congr r.key_hash v.db (revoke_key account_id w).1.db keys accounts
        ∙ revoke_key_ends account_id w revoked distinct r clock m owner in
      without_credential authorization handler token v.db _ given
        (λ p. no_credential token v.db p api no_static gone)
        (intercept_admits hash static_keys clock oidc method authorization handler v private)
