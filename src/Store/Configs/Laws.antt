-- ===== src/Store/Configs/Laws.antt =====
-- The laws of the five tables of configurations (internal/store/*_config.go).
use creel.Base.{refl}
use creel.Store.Configs.ApiKeys
use creel.Store.Configs.ApiKeys.{Encryptor}
use creel.Store.Configs.Llms
use creel.Store.Configs.Embeddings
use creel.Store.Configs.Prompts
use creel.Store.Configs.Backends
use creel.Store.Configs.Default.{TableLaws}

pub api_keys-TableLaws : TableLaws ApiKeys.table
unfolding ApiKeys.set_is_default ApiKeys.touch
api_keys-TableLaws = record {
  rows-set_rows = λ rs db. refl;
  id-set_is_default = λ b r. refl;
  name-set_is_default = λ b r. refl;
  id-touch = λ n r. refl;
  is_default-set_is_default = λ b r. refl;
  is_default-touch = λ n r. refl;
}

pub llms-TableLaws : TableLaws Llms.table
unfolding Llms.set_is_default Llms.touch
llms-TableLaws = record {
  rows-set_rows = λ rs db. refl;
  id-set_is_default = λ b r. refl;
  name-set_is_default = λ b r. refl;
  id-touch = λ n r. refl;
  is_default-set_is_default = λ b r. refl;
  is_default-touch = λ n r. refl;
}

pub embeddings-TableLaws : TableLaws Embeddings.table
unfolding Embeddings.set_is_default Embeddings.touch
embeddings-TableLaws = record {
  rows-set_rows = λ rs db. refl;
  id-set_is_default = λ b r. refl;
  name-set_is_default = λ b r. refl;
  id-touch = λ n r. refl;
  is_default-set_is_default = λ b r. refl;
  is_default-touch = λ n r. refl;
}

pub prompts-TableLaws : TableLaws Prompts.table
unfolding Prompts.set_is_default Prompts.touch
prompts-TableLaws = record {
  rows-set_rows = λ rs db. refl;
  id-set_is_default = λ b r. refl;
  name-set_is_default = λ b r. refl;
  id-touch = λ n r. refl;
  is_default-set_is_default = λ b r. refl;
  is_default-touch = λ n r. refl;
}

pub backends-TableLaws : TableLaws Backends.table
unfolding Backends.set_is_default Backends.touch
backends-TableLaws = record {
  rows-set_rows = λ rs db. refl;
  id-set_is_default = λ b r. refl;
  name-set_is_default = λ b r. refl;
  id-touch = λ n r. refl;
  is_default-set_is_default = λ b r. refl;
  is_default-touch = λ n r. refl;
}
