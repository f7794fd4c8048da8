-- ===== src/Models/Parser.antt =====
-- packages/models/src/parser.ts: model strings. (The lookup of an alias by a name that every
-- JavaScript object has, as `constructor`, is not modelled.)
use Prim.Native.String.{slice}
use swift_agent.Common.{
  ◌≡◌, refl, subst, ℕ, ◌+◌, String, false, Option, none, some, ◌⊎◌, inl, inr, ◌<>◌, str_eq,
  if◌then◌else◌, if_cases, index_of, index_of-found, text_from,
}

pub record ParsedModel : Type 0 where
  pub provider : String
  pub model : String

-- packages/models/src/types.ts
pub record ModelError : Type 0 where
  pub message : String
  pub provider : String

-- `PROVIDER_ALIASES[rawProvider] ?? rawProvider`
unfoldable pub provider_of : String → String
provider_of raw =
    if str_eq raw "gemini"
    then "google"
    else if str_eq raw "claude"
    then "anthropic"
    else if str_eq raw "gpt"
    then "openai"
    else raw

abbrev pub invalid : String → String → ModelError
invalid model problem = record {
  message = "Invalid model string \"" <> (model <> ("\": " <> problem));
  provider = "unknown";
}

abbrev pub parse_parts : String → String → String → ModelError ⊎ ParsedModel
parse_parts model raw_provider model_name =
    if str_eq raw_provider ""
    then inl (invalid model "provider segment is empty")
    else if str_eq model_name ""
    then inl (invalid model "model segment is empty")
    else inr (record { provider = provider_of raw_provider; model = model_name })

abbrev pub parse_at : String → Option ℕ → ModelError ⊎ ParsedModel
parse_at model none = inl (invalid model "expected format \"provider/model-name\"")
parse_at model (some slash) = parse_parts model (slice model 0 slash) (text_from (slash + 1) model)

-- `parseModelString`
unfoldable pub parse_model_string : String → ModelError ⊎ ParsedModel
unfolding provider_of index_of
parse_model_string model =
    if str_eq model ""
    then inl (record { message = "Model string must not be empty"; provider = "unknown" })
    else parse_at model (index_of model "/")

-- `formatModelString`
unfoldable pub format_model_string : String → String → String
format_model_string provider model = provider <> ("/" <> model)

-- The parts of a string that parses.
abbrev pub HasParts : String → ParsedModel → Type 0
HasParts model r =
    (raw : String) × (r.provider ≡ provider_of raw)
    × (format_model_string raw r.model ≡ model)
    × (str_eq raw "" ≡ false)
    × (str_eq r.model "" ≡ false)

parse_parts-HasParts :
    (model raw name : String) (r : ParsedModel)
    → raw <> ("/" <> name) ≡ model
    → parse_parts model raw name ≡ inr r
    → HasParts model r
unfolding format_model_string
parse_parts-HasParts model raw name r parts h =
    if_cases (λ (o : ModelError ⊎ ParsedModel). o ≡ inr r → HasParts model r) (str_eq raw "")
      (λ empty k. cc)
      (λ filled.
        if_cases (λ (o : ModelError ⊎ ParsedModel). o ≡ inr r → HasParts model r) (str_eq name "")
          (λ empty k. cc)
          (λ named k.
            let parsed : record { provider = provider_of raw; model = name } ≡ r = cc in
            subst (HasParts model) parsed (raw, refl, parts, filled, named)))
      h

parse_at-HasParts :
    (model : String) (o : Option ℕ) (r : ParsedModel)
    → index_of model "/" ≡ o
    → parse_at model o ≡ inr r
    → HasParts model r
parse_at-HasParts model none r at h = cc
parse_at-HasParts model (some slash) r at h =
    parse_parts-HasParts model (slice model 0 slash) (text_from (slash + 1) model) r
      (index_of-found model "/" slash at) h

-- A model string that parses is, written again by `formatModelString` with the provider as it was
-- written, the same string; the provider is that one or the one that it is an alias of, and neither
-- part is empty.
pub parse_model_string-HasParts :
    (model : String) (r : ParsedModel) → parse_model_string model ≡ inr r → HasParts model r
unfolding parse_model_string
parse_model_string-HasParts model r h =
    if_cases (λ (o : ModelError ⊎ ParsedModel). o ≡ inr r → HasParts model r) (str_eq model "")
      (λ empty k. cc) (λ filled k. parse_at-HasParts model (index_of model "/") r refl k) h
