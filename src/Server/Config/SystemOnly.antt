-- ===== src/Server/Config/SystemOnly.antt =====
-- Every method of the ConfigService wants a system account (internal/server/config.go).
use creel.Base.{ℕ, ℤ, String, Bool, false, List, Option, none, some, ◌≡◌, refl}
use creel.Exec.{err, ◌>>◌}
use creel.Store.Rows.{Principal}
use creel.Store.ConfigRows.{Parameters}
use creel.Store.World.{World}
use creel.Store.Configs.ApiKeys.{Encryptor}
use creel.Server.Status.{Handler, Code}
use creel.Server.Config.{require_system}
use creel.Server.Config.ApiKeys
use creel.Server.Config.Llms
use creel.Server.Config.Embeddings
use creel.Server.Config.Prompts
use creel.Server.Config.Backends

abbrev pub is_system_caller : Option Principal → Bool
is_system_caller none = false
is_system_caller (some q) = q.is_system

-- The caller gets an error, and nothing is read or written.
pub record Refuses {A : Type 0} (m : Handler A) : Type 0 where
  pub refuses : (w : World) → (e : Code) × (m w ≡ (err e, w))

require_system-Refuses :
    {A : Type 0} (p : Option Principal) (m : Handler A)
    → is_system_caller p ≡ false
    → Refuses (require_system p >> m)
unfolding require_system
require_system-Refuses none m h = record { refuses = λ w. (Code.unauthenticated, refl) }
require_system-Refuses (some q) m h = record { refuses = λ w. (Code.permission_denied, rw h refl) }

-- The methods for one kind of configuration.
pub record Methods {A B C D E F : Type 0} (create : Handler A) (get : Handler B) (list : Handler C)
    (update : Handler D) (delete : Handler E) (set_default : Handler F) : Type 0 where
  pub on_create : Refuses create
  pub on_get : Refuses get
  pub on_list : Refuses list
  pub on_update : Refuses update
  pub on_delete : Refuses delete
  pub on_set_default : Refuses set_default

api_keys-Methods :
    (enc : Option Encryptor) (p : Option Principal) (id name provider : String) (api_key : List ℕ)
    (b : Bool)
    → is_system_caller p ≡ false
    → Methods
        (ApiKeys.create enc p name provider api_key b)
        (ApiKeys.get p id)
        (ApiKeys.list p)
        (ApiKeys.update_config enc p id name provider api_key)
        (ApiKeys.delete p id)
        (ApiKeys.set_default p id)
unfolding ApiKeys.create ApiKeys.get ApiKeys.list ApiKeys.update_config ApiKeys.delete
    ApiKeys.set_default
api_keys-Methods enc p id name provider api_key b h = record {
  on_create = require_system-Refuses p _ h;
  on_get = require_system-Refuses p _ h;
  on_list = require_system-Refuses p _ h;
  on_update = require_system-Refuses p _ h;
  on_delete = require_system-Refuses p _ h;
  on_set_default = require_system-Refuses p _ h;
}

llms-Methods :
    (p : Option Principal) (id name provider model key_id : String) (parameters : Parameters)
    (b : Bool)
    → is_system_caller p ≡ false
    → Methods
        (Llms.create p name provider model parameters key_id b)
        (Llms.get p id)
        (Llms.list p)
        (Llms.update_config p id name provider model parameters key_id)
        (Llms.delete p id)
        (Llms.set_default p id)
unfolding Llms.create Llms.get Llms.list Llms.update_config Llms.delete Llms.set_default
llms-Methods p id name provider model key_id parameters b h = record {
  on_create = require_system-Refuses p _ h;
  on_get = require_system-Refuses p _ h;
  on_list = require_system-Refuses p _ h;
  on_update = require_system-Refuses p _ h;
  on_delete = require_system-Refuses p _ h;
  on_set_default = require_system-Refuses p _ h;
}

embeddings-Methods :
    (p : Option Principal) (id name provider model key_id : String) (dimensions : ℤ) (b : Bool)
    → is_system_caller p ≡ false
    → Methods
        (Embeddings.create p name provider model dimensions key_id b)
        (Embeddings.get p id)
        (Embeddings.list p)
        (Embeddings.update_config p id name key_id)
        (Embeddings.delete p id)
        (Embeddings.set_default p id)
unfolding Embeddings.create Embeddings.get Embeddings.list Embeddings.update_config
    Embeddings.delete Embeddings.set_default
embeddings-Methods p id name provider model key_id dimensions b h = record {
  on_create = require_system-Refuses p _ h;
  on_get = require_system-Refuses p _ h;
  on_list = require_system-Refuses p _ h;
  on_update = require_system-Refuses p _ h;
  on_delete = require_system-Refuses p _ h;
  on_set_default = require_system-Refuses p _ h;
}

prompts-Methods :
    (p : Option Principal) (id name prompt description : String) (b : Bool)
    → is_system_caller p ≡ false
    → Methods
        (Prompts.create p name prompt description b)
        (Prompts.get p id)
        (Prompts.list p)
        (Prompts.update_config p id name prompt description)
        (Prompts.delete p id)
        (Prompts.set_default p id)
unfolding Prompts.create Prompts.get Prompts.list Prompts.update_config Prompts.delete
    Prompts.set_default
prompts-Methods p id name prompt description b h = record {
  on_create = require_system-Refuses p _ h;
  on_get = require_system-Refuses p _ h;
  on_list = require_system-Refuses p _ h;
  on_update = require_system-Refuses p _ h;
  on_delete = require_system-Refuses p _ h;
  on_set_default = require_system-Refuses p _ h;
}

backends-Methods :
    (p : Option Principal) (id name backend : String) (config : Parameters) (b : Bool)
    → is_system_caller p ≡ false
    → Methods
        (Backends.create p name backend config b)
        (Backends.get p id)
        (Backends.list p)
        (Backends.update_config p id name config)
        (Backends.delete p id)
        (Backends.set_default p id)
unfolding Backends.create Backends.get Backends.list Backends.update_config Backends.delete
    Backends.set_default
backends-Methods p id name backend config b h = record {
  on_create = require_system-Refuses p _ h;
  on_get = require_system-Refuses p _ h;
  on_list = require_system-Refuses p _ h;
  on_update = require_system-Refuses p _ h;
  on_delete = require_system-Refuses p _ h;
  on_set_default = require_system-Refuses p _ h;
}

-- A caller that is no system account gets an error from every one of the thirty methods, whatever
-- the request holds, and the world is the same: no statement is sent to the database.
pub config-Methods :
    (enc : Option Encryptor) (p : Option Principal)
    (id name provider model key_id prompt description backend : String) (api_key : List ℕ)
    (parameters config : Parameters) (dimensions : ℤ) (b : Bool)
    → is_system_caller p ≡ false
    → Methods
        (ApiKeys.create enc p name provider api_key b)
        (ApiKeys.get p id)
        (ApiKeys.list p)
        (ApiKeys.update_config enc p id name provider api_key)
        (ApiKeys.delete p id)
        (ApiKeys.set_default p id)
      × Methods
          (Llms.create p name provider model parameters key_id b)
          (Llms.get p id)
          (Llms.list p)
          (Llms.update_config p id name provider model parameters key_id)
          (Llms.delete p id)
          (Llms.set_default p id)
      × Methods
          (Embeddings.create p name provider model dimensions key_id b)
          (Embeddings.get p id)
          (Embeddings.list p)
          (Embeddings.update_config p id name key_id)
          (Embeddings.delete p id)
          (Embeddings.set_default p id)
      × Methods
          (Prompts.create p name prompt description b)
          (Prompts.get p id)
          (Prompts.list p)
          (Prompts.update_config p id name prompt description)
          (Prompts.delete p id)
          (Prompts.set_default p id)
      × Methods
          (Backends.create p name backend config b)
          (Backends.get p id)
          (Backends.list p)
          (Backends.update_config p id name config)
          (Backends.delete p id)
          (Backends.set_default p id)
config-Methods enc p id name provider model key_id prompt description backend api_key parameters
      config dimensions b h =
    (
      api_keys-Methods enc p id name provider api_key b h,
      llms-Methods p id name provider model key_id parameters b h,
      embeddings-Methods p id name provider model key_id dimensions b h,
      prompts-Methods p id name prompt description b h,
      backends-Methods p id name backend config b h,
    )
