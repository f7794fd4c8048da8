-- ===== src/Models/Registry.antt =====
-- packages/models/src/registry.ts: the providers by their ids. A factory is a number; an instance is
-- the factory and the configuration that it was made of, with the count of instances before it.
pub mod Current
use swift_agent.Common.{
  ℕ, ◌+◌, String, Bool, true, false, List, [], ◌∷◌, Option, none, some, ◌⊎◌, inl, inr, ◌<>◌, str_eq,
  if◌then◌else◌, get_key, set_key, delete_key,
}
use swift_agent.Models.Parser.{ModelError, ParsedModel, parse_model_string}

pub record ProviderConfig : Type 0 where
  pub api_key : String
  pub base_url : Option String
  pub default_model : Option String
  pub timeout : Option ℕ

pub record ModelProvider : Type 0 where
  pub factory : ℕ
  pub config : ProviderConfig
  pub serial : ℕ

pub record ProviderRegistry : Type 0 where
  pub factories : List (String × ℕ)
  pub configs : List (String × ProviderConfig)
  pub instances : List (String × ModelProvider)
  pub made : ℕ

abbrev pub with_config :
    String → Option ProviderConfig → List (String × ProviderConfig) → List (String × ProviderConfig)
with_config provider_id none configs = configs
with_config provider_id (some config) configs = set_key provider_id config configs

-- `register`
unfoldable pub register : String → ℕ → Option ProviderConfig → ProviderRegistry → ProviderRegistry
register provider_id factory config r = record r {
  factories = set_key provider_id factory r.factories;
  configs = with_config provider_id config r.configs;
  instances = delete_key provider_id r.instances;
}

-- `PROVIDER_KEY_MAP`
abbrev pub key_variable : String → Option String
key_variable provider_id =
    if str_eq provider_id "openai"
    then some "OPENAI_API_KEY"
    else if str_eq provider_id "anthropic"
    then some "ANTHROPIC_API_KEY"
    else if str_eq provider_id "google"
    then some "GOOGLE_API_KEY"
    else none

abbrev pub error : String → String → ModelError
error provider_id message = record { message = message; provider = provider_id }

abbrev pub missing_key : String → String → ModelError ⊎ ProviderConfig
missing_key provider_id variable = inl (
    error provider_id (
      "Missing API key for provider \""
      <> (provider_id <> ("\": set the " <> (variable <> " environment variable")))))

abbrev pub keyed : String → String → Option String → ModelError ⊎ ProviderConfig
keyed provider_id variable none = missing_key provider_id variable
keyed provider_id variable (some key) =
    if str_eq key ""
    then missing_key provider_id variable
    else inr (record { api_key = key; base_url = none; default_model = none; timeout = none })

module _ (env : String → Option String) where
  abbrev pub from_variable : String → Option String → ModelError ⊎ ProviderConfig
  from_variable provider_id none = inl (
      error provider_id (
        "No config or known env var for provider \""
        <> (provider_id
            <> "\". Register with an explicit config or add a mapping to PROVIDER_KEY_MAP.")))
  from_variable provider_id (some variable) = keyed provider_id variable (env variable)

  -- `resolveConfig`, on the explicit configuration.
  abbrev pub resolve_config : String → Option ProviderConfig → ModelError ⊎ ProviderConfig
  resolve_config provider_id (some explicit) = inr explicit
  resolve_config provider_id none = from_variable provider_id (key_variable provider_id)

  abbrev pub make :
      String
      → ℕ
      → ModelError ⊎ ProviderConfig
      → ProviderRegistry
      → (ModelError ⊎ ModelProvider) × ProviderRegistry
  make provider_id factory (inl e) r = (inl e, r)
  make provider_id factory (inr config) r =
      let instance_ : ModelProvider = record {
        factory = factory;
        config = config;
        serial = r.made;
      } in
      (
        inr instance_,
        record r { instances = set_key provider_id instance_ r.instances; made = r.made + 1 },
      )

  abbrev pub get_made :
      String → Option ℕ → ProviderRegistry → (ModelError ⊎ ModelProvider) × ProviderRegistry
  get_made provider_id none r =
      (inl (error provider_id ("No provider registered for \"" <> (provider_id <> "\""))), r)
  get_made provider_id (some factory) r =
      make provider_id factory (resolve_config provider_id (get_key provider_id r.configs)) r

  abbrev pub get_cached :
      String
      → Option ModelProvider
      → ProviderRegistry
      → (ModelError ⊎ ModelProvider) × ProviderRegistry
  get_cached provider_id (some cached) r = (inr cached, r)
  get_cached provider_id none r = get_made provider_id (get_key provider_id r.factories) r

  -- `getProvider`
  unfoldable pub get_provider :
      String → ProviderRegistry → (ModelError ⊎ ModelProvider) × ProviderRegistry
  get_provider provider_id r = get_cached provider_id (get_key provider_id r.instances) r

  abbrev pub resolve_parsed :
      ModelError ⊎ ParsedModel
      → ProviderRegistry
      → (ModelError ⊎ (ModelProvider × String)) × ProviderRegistry
  resolve_parsed (inl e) r = (inl e, r)
  resolve_parsed (inr parsed) r =
      let (o, r') = get_provider parsed.provider r in
      elim o [ inl e ↦ (inl e, r') | inr p ↦ (inr (p, parsed.model), r') ]

  -- `resolveForModel`
  unfoldable pub resolve_for_model :
      String → ProviderRegistry → (ModelError ⊎ (ModelProvider × String)) × ProviderRegistry
  unfolding get_provider parse_model_string
  resolve_for_model model_string r = resolve_parsed (parse_model_string model_string) r
