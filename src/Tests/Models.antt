-- ===== src/Tests/Models.antt =====
-- A model string, and a registry with one provider that is registered twice.
use swift_agent.Common.{
  ◌≡◌, refl, String, List, [], ◌∷◌, Option, none, some, inr, get_key, set_key, delete_key,
  text_from,
}
use swift_agent.Models.Parser.{HasParts, parse_model_string, parse_model_string-HasParts}
use swift_agent.Models.Registry.{ProviderConfig, ModelProvider, get_provider}
use swift_agent.Models.Registry.Current.{
  Event, registers, gets, no_providers, apply_all, get_provider-IsCurrent,
}

parse_model_string-HasParts_example :
    HasParts "gemini/flash" (record { provider = "google"; model = "flash" })
unfolding parse_model_string text_from
parse_model_string-HasParts_example =
    parse_model_string-HasParts "gemini/flash" (record { provider = "google"; model = "flash" })
      refl

abbrev config : ProviderConfig
config = record { api_key = "k"; base_url = none; default_model = none; timeout = none }

abbrev history : List Event
history = registers "openai" 1 (some config) ∷ gets "openai" ∷ registers "openai" 2 none ∷ []

abbrev no_env : String → Option String
no_env name = none

abbrev second : ModelProvider
second = record { factory = 2; config = config; serial = 1 }

get_provider-IsCurrent_example :
    (get_key "openai" (apply_all no_env history no_providers).factories ≡ some 2)
    × ((c : ProviderConfig)
        → get_key "openai" (apply_all no_env history no_providers).configs ≡ some c
        → config ≡ c)
    × ((get_provider no_env "openai"
          (get_provider no_env "openai" (apply_all no_env history no_providers)).1).0
        ≡ inr second)
unfolding get_provider get_key apply_all delete_key set_key
get_provider-IsCurrent_example = get_provider-IsCurrent no_env history "openai" second refl
