-- ===== src/Auth/Middleware/Admission.antt =====
-- Who gets through the interceptor (internal/auth/middleware.go), over the keys of the database.
use creel.Base.{
  ℕ, String, true, false, List, [], ◌∷◌, Option, none, some, ◌≡◌, refl, ap, sym, ◌∙◌, inl, inr,
  Bool-cases, Option-cases, Memᴰ,
}
use creel.Exec.{Result, ok, err, or_fail, ◌>>=◌}
use creel.Store.Rows.{Principal}
use creel.Store.World.{World, Db, statement}
use creel.Store.Accounts.{resolve, lookup_key_hash}
use creel.Auth.ApiKey
use creel.Auth.ApiKey.{ApiKeyValidator, PrincipalMap, find_principal, is_api_key}
use creel.Auth.Oidc
use creel.Auth.Oidc.{ProviderEntry, accept, accepted_or, has_providers}
use creel.Auth.Middleware.{is_public, extract_bearer_token, principal_for, admitted, intercept}
use creel.Server.Status.{Handler, Code}

-- The validator that the server is started with.
abbrev pub validator : (String → String) → PrincipalMap → ℕ → ApiKeyValidator
validator hash static_keys clock = record {
  hash = hash;
  static_keys = static_keys;
  dynamic_lookup = some (lookup_key_hash clock);
}

module _ (hash : String → String) (static_keys : PrincipalMap) (clock : ℕ)
    (oidc : List ProviderEntry) where
  -- What a token proves of a principal, with the keys of the database.
  pub data Credential (token : String) (db : Db) (p : Principal) : Type 0 where
    configured :
        is_api_key token ≡ true
        → find_principal (hash token) static_keys ≡ some p
        → Credential token db p
    stored :
        is_api_key token ≡ true
        → find_principal (hash token) static_keys ≡ none
        → resolve clock (hash token) db ≡ some p
        → Credential token db p
    verified :
        is_api_key token ≡ false
        → (e : ProviderEntry) → Memᴰ e oidc
        → accept e token ≡ some p
        → Credential token db p

  -- The ends of a request to a method that is not public.
  pub data Admission {A : Type 0} (authorization : Option (List String))
      (handler : Option Principal → Handler A) (db : Db) : Result Code A × World → Type 0 where
    refused : (e : Code) (w : World) → w.db ≡ db → Admission authorization handler db (err e, w)
    let_in :
        (token : String) (p : Principal) (w : World) (v : World)
        → extract_bearer_token authorization v ≡ (ok token, v)
        → Credential token db p
        → w.db ≡ db
        → Admission authorization handler db (handler (some p) w)

  oidc_credential :
      (entries : List ProviderEntry) (token : String) (p : Principal)
      → Oidc.validate entries token ≡ some p
      → (e : ProviderEntry) × Memᴰ e entries × (accept e token ≡ some p)
  unfolding Oidc.validate
  oidc_credential [] token p h = absurd (cc)
  oidc_credential (e ∷ entries) token p h = elim (Option-cases (accept e token)) [
    | inl q ↦
        let rest = Oidc.validate entries token in
        let (f, m, r) =
          oidc_credential entries token p (ap (λ o. accepted_or o rest) (sym q) ∙ h) in
        (f, Memᴰ.tail m, r)
    | inr (x, q) ↦
        let rest = Oidc.validate entries token in
        (e, Memᴰ.head refl, q ∙ ap (λ o. accepted_or o rest) (sym q) ∙ h)
  ]

  -- The outcome of the look at a token.
  data Looked (token : String) (db : Db) : Result Code (Option Principal) × World → Type 0 where
    unknown : (w : World) → w.db ≡ db → Looked token db (ok none, w)
    broken : (e : Code) (w : World) → w.db ≡ db → Looked token db (err e, w)
    known :
        (p : Principal) (w : World)
        → w.db ≡ db
        → Credential token db p
        → Looked token db (ok (some p), w)

  looked-option :
      (token : String) (w : World) (o : Option Principal)
      → ((p : Principal) → o ≡ some p → Credential token w.db p)
      → (v : World) → v.db ≡ w.db
      → Looked token w.db (ok o, v)
  looked-option token w none h v same = unknown v same
  looked-option token w (some p) h v same = known p v same (h p refl)

  lookup-Looked :
      (token : String) (w : World)
      → is_api_key token ≡ true
      → find_principal (hash token) static_keys ≡ none
      → Looked token w.db (or_fail (lookup_key_hash clock (hash token)) Code.internal w)
  unfolding lookup_key_hash statement
  lookup-Looked token w api no_static = elim (Bool-cases (w.env.fails w.tick)) [
    | inl e ↦ rw e (broken _ _ refl)
    | inr e ↦ rw e (
        looked-option token w (resolve clock (hash token) w.db) (λ p r. stored api no_static r) _
          refl)
  ]

  principal_for-Looked :
      (token : String) (w : World)
      → Looked token w.db (principal_for (validator hash static_keys clock) oidc token w)
  unfolding principal_for ApiKey.validate has_providers
  principal_for-Looked token w = elim (Bool-cases (is_api_key token)) [
    | inl api ↦ elim (Option-cases (find_principal (hash token) static_keys)) [
      | inl q ↦ rw (api, q) (lookup-Looked token w api q)
      | inr (p, q) ↦ rw (api, q) (known p w refl (configured api q))
    ]
    | inr other ↦ elim (Bool-cases (has_providers oidc)) [
      | inl some_provider ↦
          rw (other, some_provider)
            (looked-option token w (Oidc.validate oidc token)
              (λ p r. let (e, m, q) = oidc_credential oidc token p r in verified other e m q) w
              refl)
      | inr no_provider ↦ rw (other, no_provider) (unknown w refl)
    ]
  ]

  admitted-Admission :
      {A : Type 0} (authorization : Option (List String)) (handler : Option Principal → Handler A)
      (token : String) (db : Db) (v : World) (r : Result Code (Option Principal) × World)
      → extract_bearer_token authorization v ≡ (ok token, v)
      → Looked token db r
      → Admission authorization handler db (((λ u. r) >>= λ p. admitted p handler) v)
  admitted-Admission authorization handler token db v r t (unknown w same) = refused _ w same
  admitted-Admission authorization handler token db v r t (broken e w same) = refused e w same
  admitted-Admission authorization handler token db v r t (known p w same c) =
      let_in token p w v t c same

  -- A call of a method that is not public is refused and changes nothing, or the handler runs on the
  -- same tables for a principal for which the request's token is a credential: a configured key, a
  -- key of the database that counts at this time, or a token that a provider accepts.
  pub intercept_admits :
      {A : Type 0} (method : String) (authorization : Option (List String))
      (handler : Option Principal → Handler A) (w : World)
      → is_public method ≡ false
      → Admission authorization handler w.db
          (intercept (validator hash static_keys clock) oidc method authorization handler w)
  unfolding intercept extract_bearer_token
  intercept_admits method none handler w h = rw h (refused _ w refl)
  intercept_admits method (some []) handler w h = rw h (refused _ w refl)
  intercept_admits method (some (val ∷ vals)) handler w h =
      rw h
        (admitted-Admission (some (val ∷ vals)) handler _ w.db w _ refl (principal_for-Looked _ w))
