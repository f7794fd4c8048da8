-- ===== src/Runtime/Tools.antt =====
-- packages/runtime/src/tool-mapping.ts and tool-validation.ts. The JSON-schema compiler (Ajv) is a
-- third-party package and stands as a parameter: it throws with a reason, or yields a validator
-- that answers the errors of a rejected value.
use swift_agent.Common.{
  String, List, [], ◌∷◌, Option, none, some, ◌⊎◌, inl, inr, str_eq, if◌then◌else◌, ◌<>◌,
}
use swift_agent.Json.{Json}

pub record ToolDefinition : Type 0 where
  pub name : String
  pub description : String
  pub input_schema : Json

pub record ToolSchema : Type 0 where
  pub name : String
  pub description : String
  pub parameters : Json

pub record AjvError : Type 0 where
  pub instance_path : String
  pub message : Option String

-- `some errors` for a value that is rejected; the value may be `undefined`.
abbrev pub Validator : Type 0
Validator = Option Json → Option (List AjvError)

abbrev pub Compiler : Type 0
Compiler = Json → String ⊎ Validator

pub record ToolIndexEntry : Type 0 where
  pub def : ToolDefinition
  pub validate : Validator

pub record ToolValidationError : Type 0 where
  pub code : String
  pub message : String

-- `toModelToolSchemas`
unfoldable pub to_model_tool_schemas : List ToolDefinition → List ToolSchema
to_model_tool_schemas [] = []
to_model_tool_schemas (t ∷ ts) =
    record { name = t.name; description = t.description; parameters = t.input_schema }
    ∷ to_model_tool_schemas ts

-- `makeSchemaErrorValidator`
unfoldable pub make_schema_error_validator : String → String → Validator
make_schema_error_validator tool_name reason args = some (
    record {
      instance_path = "";
      message = some ("tool \"" <> tool_name <> "\" has an invalid input schema: " <> reason);
    }
    ∷ [])

abbrev compiled : String → String ⊎ Validator → Validator
compiled name (inl reason) = make_schema_error_validator name reason
compiled name (inr validate) = validate

-- `index.set(key, entry)` and `index.get(key)` of a `Map`.
unfoldable pub set :
    String → ToolIndexEntry → List (String × ToolIndexEntry) → List (String × ToolIndexEntry)
set k e [] = (k, e) ∷ []
set k e ((j, d) ∷ m) = if str_eq j k then (k, e) ∷ m else (j, d) ∷ set k e m

unfoldable pub get : String → List (String × ToolIndexEntry) → Option ToolIndexEntry
get k [] = none
get k ((j, d) ∷ m) = if str_eq j k then some d else get k m

-- The loop of `buildToolIndex`.
index_from :
    Compiler → List (String × ToolIndexEntry) → List ToolDefinition → List (String × ToolIndexEntry)
index_from compile index [] = index
index_from compile index (def ∷ defs) =
    index_from compile
      (set def.name (record { def = def; validate = compiled def.name (compile def.input_schema) })
        index)
      defs

unfoldable pub build_tool_index : Compiler → List ToolDefinition → List (String × ToolIndexEntry)
unfolding index_from set
build_tool_index compile defs = index_from compile [] defs

abbrev path_or_root : String → String
path_or_root path = if str_eq path "" then "(root)" else path

abbrev message_or_default : Option String → String
message_or_default none = "is invalid"
message_or_default (some m) = m

-- One line of `formatAjvErrors`; `trim` is the JavaScript string method.
abbrev format_error : (String → String) → AjvError → String
format_error trim e = trim (path_or_root e.instance_path <> " " <> message_or_default e.message)

join : (String → String) → AjvError → List AjvError → String
join trim e [] = format_error trim e
join trim e (e' ∷ es) = format_error trim e <> "; " <> join trim e' es

unfoldable pub format_ajv_errors : (String → String) → String → List AjvError → String
unfolding join
format_ajv_errors trim tool_name [] =
    "Arguments for tool \"" <> tool_name <> "\" failed schema validation."
format_ajv_errors trim tool_name (e ∷ es) =
    "Arguments for tool \"" <> tool_name <> "\" failed schema validation: " <> join trim e es

-- The verdict on the arguments: `none` is `{ ok: true }`.
unfoldable pub check_arguments :
    (String → String) → String → Option (List AjvError) → Option ToolValidationError
check_arguments trim tool_name none = none
check_arguments trim tool_name (some errors) =
    some (record { code = "INVALID_ARGUMENTS"; message = format_ajv_errors trim tool_name errors })

-- `validateToolCall` on the entry that the index holds.
unfoldable pub validate_entry :
    (String → String) → Option ToolIndexEntry → String → Option Json → Option ToolValidationError
unfolding check_arguments
validate_entry trim none tool_name args = some (record {
  code = "UNKNOWN_TOOL";
  message = "Tool \"" <> tool_name <> "\" is not registered for this agent.";
})
validate_entry trim (some entry) tool_name args =
    check_arguments trim tool_name (entry.validate args)

unfoldable pub validate_tool_call :
    (String → String)
    → List (String × ToolIndexEntry)
    → String
    → Option Json
    → Option ToolValidationError
unfolding validate_entry get
validate_tool_call trim index tool_name args =
    validate_entry trim (get tool_name index) tool_name args
