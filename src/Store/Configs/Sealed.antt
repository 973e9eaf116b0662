-- ===== src/Store/Configs/Sealed.antt =====
-- An API key comes back as it was stored (internal/store/api_key_config.go).
use creel.Base.{
  ℕ, String, Bool, true, false, List, [], ◌∷◌, none, some, ◌≡◌, refl, ap, sym, ◌∙◌, subst, inl, inr,
  Bool-cases, ◌==◌, ==_refl, ◌||◌, exists, update, first,
}
use creel.Exec.{Exec, Result, ok, pure, ◌>>=◌, ◌>>◌, bind-ok}
use creel.Store.World.{World, Db, Error, statement}
use creel.Store.ConfigRows.{ApiKeyConfig}
use creel.Store.Jobs.{begin, commit}
use creel.Store.Accounts.Found.{first-append_none}
use creel.Store.Configs
use creel.Store.Configs.Choice.{committed}
use creel.Store.Configs.ApiKeys
use creel.Store.Configs.ApiKeys.{Encryptor, set_is_default}

-- What a run that succeeds makes of the rows.
record Leads {A : Type 0} (P : List ApiKeyConfig → Type 0) (Q : A → List ApiKeyConfig → Type 0)
    (m : Exec World Error A) : Type 0 where
  pub at :
      (w : World) (a : A) → (m w).0 ≡ ok a → P w.db.api_key_configs → Q a (m w).1.db.api_key_configs

statement-Leads :
    {A : Type 0} {P : List ApiKeyConfig → Type 0} {Q : A → List ApiKeyConfig → Type 0} (msg : Error)
    (f : World → Result Error A × Db)
    → ((w : World) (a : A) → (f w).0 ≡ ok a → P w.db.api_key_configs → Q a (f w).1.api_key_configs)
    → Leads P Q (statement msg f)
unfolding statement
statement-Leads msg f h = record {
  at = λ w a e p. elim (Bool-cases (w.env.fails w.tick)) [
    | inl b ↦ absurd (cc (rw b at e))
    | inr b ↦ rw b (h w a (rw b at e) p)
  ];
}

bind-Leads :
    {A B : Type 0} {P : List ApiKeyConfig → Type 0} {Q : A → List ApiKeyConfig → Type 0}
    {R : B → List ApiKeyConfig → Type 0} {m : Exec World Error A} {k : A → Exec World Error B}
    → Leads P Q m
    → ((a : A) → Leads (Q a) R (k a))
    → Leads P R (m >>= k)
bind-Leads {R} {m} {k} h c = record {
  at = λ w b e p.
      let (a, q, f) = bind-ok m k w e in
      subst (λ r. R b r.1.db.api_key_configs) (sym f)
        ((c a).at (m w).1 b (sym (ap (λ r. r.0) f) ∙ e) (h.at w a q p));
}

module _ (sealed : List ℕ × List ℕ) (id : String) where
  abbrev Absent : List ApiKeyConfig → Type 0
  Absent rows = first (λ r. r.id == id) rows ≡ none

  -- A row with the sealed key, which is found under its ID.
  record Stored (c : ApiKeyConfig) (rows : List ApiKeyConfig) : Type 0 where
    pub encrypted_key : c.encrypted_key ≡ sealed.0
    pub key_nonce : c.key_nonce ≡ sealed.1
    pub found : c.id ≡ id → first (λ r. r.id == id) rows ≡ some c

  update-Absent :
      (rows : List ApiKeyConfig)
      → Absent rows
      → Absent (update (λ c. c.is_default) (set_is_default false) rows)
  unfolding set_is_default
  update-Absent [] h = refl
  update-Absent (c ∷ rows) h = elim (Bool-cases (c.id == id)) [
    | inl e ↦ absurd (cc (rw e at h))
    | inr e ↦ elim (Bool-cases c.is_default) [
      | inl d ↦ rw (d, e) (update-Absent rows (rw e at h))
      | inr d ↦ rw (d, e) (update-Absent rows (rw e at h))
    ]
  ]

  begin-Leads : Leads Absent (λ _. Absent) begin
  unfolding begin
  begin-Leads = statement-Leads _ _ (λ w a e p. p)

  clear_if-Leads : (b : Bool) → Leads Absent (λ _. Absent) (Configs.clear_if ApiKeys.table b)
  unfolding Configs.clear_default
  clear_if-Leads true = statement-Leads _ _ (λ w a e p. update-Absent w.db.api_key_configs p)
  clear_if-Leads false = record { at = λ w a e p. p }

  insert_row-Leads :
      (msg : Error) (make : World → ApiKeyConfig)
      → ((w : World) → (make w).encrypted_key ≡ sealed.0)
      → ((w : World) → (make w).key_nonce ≡ sealed.1)
      → Leads Absent Stored (Configs.insert_row ApiKeys.table msg make)
  unfolding Configs.insert_row
  insert_row-Leads msg make key nonce = statement-Leads _ _ λ w a e p.
      let r = make w in
      let taken =
        exists (λ q. q.name == r.name) w.db.api_key_configs
        || (Configs.default_taken ApiKeys.table r w.db || false) in
      elim (Bool-cases taken) [
        | inl t ↦ absurd (cc (rw t at e))
        | inr t ↦
            let same : make w ≡ a = ok_row (make w) a (rw t at e) in
            rw t (record {
              encrypted_key = sym (ap (λ c. c.encrypted_key) same) ∙ key w;
              key_nonce = sym (ap (λ c. c.key_nonce) same) ∙ nonce w;
              found = λ i.
                  first-append_none (λ c. c.id == id) w.db.api_key_configs (make w) p
                    (ap (λ c. c.id == id) same ∙ ap (λ s. s == id) i ∙ ==_refl id)
                  ∙ ap some same;
            })
      ]
    where
      ok_row : (x y : ApiKeyConfig) → ◌≡◌ {A = Result Error ApiKeyConfig} (ok x) (ok y) → x ≡ y
      ok_row x y h = cc

  commit-Leads : (c : ApiKeyConfig) (msg : Error) → Leads (Stored c) (λ _. Stored c) (commit msg)
  unfolding commit
  commit-Leads c msg = statement-Leads _ _ (λ w a e p. p)

  pure-Leads : (c : ApiKeyConfig) → Leads (Stored c) Stored (pure c)
  pure-Leads c = record {
    at = λ w a e p. subst (λ x. Stored x w.db.api_key_configs) (same_row c a e) p;
  }
    where
      same_row : (x y : ApiKeyConfig) → ◌≡◌ {A = Result Error ApiKeyConfig} (ok x) (ok y) → x ≡ y
      same_row x y h = cc

-- What `Create` does in its transaction.
abbrev creation : Error → Bool → (World → ApiKeyConfig) → Exec World Error ApiKeyConfig
creation msg b make = do
  begin
  Configs.clear_if ApiKeys.table b
  c ← Configs.insert_row ApiKeys.table msg make
  commit "committing transaction"
  pure c

creation-Leads :
    (sealed : List ℕ × List ℕ) (id : String) (msg : Error) (b : Bool) (make : World → ApiKeyConfig)
    → ((w : World) → (make w).encrypted_key ≡ sealed.0)
    → ((w : World) → (make w).key_nonce ≡ sealed.1)
    → Leads (Absent sealed id) (Stored sealed id) (creation msg b make)
creation-Leads sealed id msg b make key nonce = bind-Leads (begin-Leads sealed id) λ _.
    bind-Leads (clear_if-Leads sealed id b) λ _.
      bind-Leads (insert_row-Leads sealed id msg make key nonce) λ d.
        bind-Leads (commit-Leads sealed id d "committing transaction") λ _. pure-Leads sealed id d

created-Stored :
    (e : Encryptor) (name provider : String) (key : List ℕ) (b : Bool) (w : World)
    (c : ApiKeyConfig)
    → (ApiKeys.create (some e) name provider key b w).0 ≡ ok c
    → Absent (e.encrypt w.tick key) c.id w.db.api_key_configs
    → Stored
        (e.encrypt w.tick key)
        c.id
        c
        (ApiKeys.create (some e) name provider key b w).1.db.api_key_configs
unfolding ApiKeys.create Configs.create_row
created-Stored e name provider key b w c h fresh =
    let sealed = e.encrypt w.tick key in
    let make = ApiKeys.new_row name provider sealed b in
    let msg : Error = "inserting API key config" in
    committed (λ db. Stored sealed c.id c db.api_key_configs) (creation msg b make) w c
      (λ r. (creation-Leads sealed c.id msg b make (λ v. refl) (λ v. refl)).at w c r fresh) h

-- When creating an API key configuration succeeds, under an ID that no row had, decrypting it gives
-- the key that was stored, as long as the table is the same and the statement does not fail; the
-- cipher must open what it has sealed.
pub create-get_decrypted :
    (e : Encryptor) (name provider : String) (key : List ℕ) (b : Bool) (w v : World)
    (c : ApiKeyConfig)
    → ((n : ℕ) (p : List ℕ) → e.decrypt (e.encrypt n p).0 (e.encrypt n p).1 ≡ some p)
    → (ApiKeys.create (some e) name provider key b w).0 ≡ ok c
    → Configs.find_row ApiKeys.table c.id w.db ≡ none
    → v.db.api_key_configs ≡ (ApiKeys.create (some e) name provider key b w).1.db.api_key_configs
    → v.env.fails v.tick ≡ false
    → (ApiKeys.get_decrypted (some e) c.id v).0 ≡ ok key
unfolding ApiKeys.get_decrypted statement
create-get_decrypted e name provider key b w v c opens h fresh same healthy =
    let s = created-Stored e name provider key b w c h fresh in
    let found : first (λ r. r.id == c.id) v.db.api_key_configs ≡ some c =
      ap (first (λ r. r.id == c.id)) same ∙ s.found refl in
    rw (healthy, found, s.encrypted_key, s.key_nonce, opens w.tick key) refl
