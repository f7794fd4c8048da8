-- ===== src/Json.antt =====
-- JSON values, as `JSON.parse` and `JSON.stringify` exchange them, and the two functions
-- themselves, which the JavaScript engine provides, as a record of operations.
use swift_agent.Common.{Bool, String, Option, none, some, str_eq, if◌then◌else◌}

-- A number is kept as its numeral.
mutual
  pub data Json : Type 0 where
    null : Json
    bool : Bool → Json
    num : String → Json
    str : String → Json
    arr : Items → Json
    obj : Fields → Json

  pub data Items : Type 0 where
    nil : Items
    cons : Json → Items → Items

  pub data Fields : Type 0 where
    end : Fields
    field : String → Json → Fields → Fields

-- `parse` answers `none` where `JSON.parse` throws.
pub record JsonText : Type 0 where
  pub stringify : Json → String
  pub parse : String → Option Json

-- The value of a property, and `none` where `key in object` is false.
unfoldable pub property : String → Fields → Option Json
property key end = none
property key (field k v fs) = if str_eq k key then some v else property key fs

-- A field that an object has unless its value is `undefined`.
abbrev pub optional_field : String → Option Json → Fields → Fields
optional_field key none fs = fs
optional_field key (some j) fs = field key j fs
