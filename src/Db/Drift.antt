-- ===== src/Db/Drift.antt =====
-- packages/db/src/drift-check.ts: the comparison of the expected schema with the live one. An object
-- used as a map is the list of its entries, whose keys are names of tables, columns and the like. It
-- is a plain object: the test `!expected[name]` of a loop over the live names finds the names of
-- `Object.prototype` too, as modelled. Where a name of the expected schema is such a name, the code
-- reads the inherited function and reports a mismatch or throws; this is not modelled.
pub mod Entries
pub mod Same
pub mod Rows
pub mod Sides
pub mod Check
use swift_agent.Common.{
  ℕ, ◌-◌, String, Bool, true, false, not, ◌||◌, ◌&&◌, List, [], ◌∷◌, ◌++◌, Option, none, some,
  str_eq, ◌<>◌, ◌==◌, length, if◌then◌else◌, get_key,
}
use swift_agent.Db.Drift.Entries.{each_entry, each_tested}

pub record CanonicalColumn : Type 0 where
  pub name : String
  pub type : String
  pub not_null : Bool
  pub default : Option String

pub record CanonicalIndex : Type 0 where
  pub name : String
  pub columns : List String
  pub is_unique : Bool

pub record CanonicalForeignKey : Type 0 where
  pub name : String
  pub columns_from : List String
  pub table_to : String
  pub columns_to : List String
  pub on_delete : String
  pub on_update : String

pub record CanonicalTable : Type 0 where
  pub name : String
  pub columns : List (String × CanonicalColumn)
  pub indexes : List (String × CanonicalIndex)
  pub foreign_keys : List (String × CanonicalForeignKey)
  pub primary_key_columns : List String

pub record CanonicalSchema : Type 0 where
  pub tables : List (String × CanonicalTable)
  pub enums : List (String × List String)

pub data DriftKind : Type 0 where
  table column enum index foreign_key primary_key : DriftKind

pub data DriftDetail : Type 0 where
  missing_in_db unexpected_in_db mismatch : DriftDetail

pub record DriftDifference : Type 0 where
  pub kind : DriftKind
  pub object : String
  pub detail : DriftDetail
  pub expected : Option String
  pub actual : Option String

-- `===` on Booleans
abbrev pub bool_eq : Bool → Bool → Bool
bool_eq true b = b
bool_eq false b = not b

-- `values.join(', ')`
abbrev pub join_rest : List String → String
join_rest [] = ""
join_rest (v ∷ vs) = ", " <> (v <> join_rest vs)

abbrev pub join : List String → String
join [] = ""
join (v ∷ vs) = v <> join_rest vs

abbrev pub describe_column : CanonicalColumn → String
describe_column c = c.type <> (if c.not_null then " NOT NULL" else "")

abbrev pub describe_index : CanonicalIndex → String
describe_index i = (if i.is_unique then "UNIQUE " else "") <> ("(" <> (join i.columns <> ")"))

abbrev pub describe_foreign_key : CanonicalForeignKey → String
describe_foreign_key f =
    "("
    <> (join f.columns_from
        <> (") -> "
            <> (f.table_to
                <> ("("
                    <> (join f.columns_to
                        <> (") ON DELETE " <> (f.on_delete <> (" ON UPDATE " <> f.on_update))))))))

unfoldable pub arrays_equal : List String → List String → Bool
arrays_equal [] [] = true
arrays_equal [] (y ∷ ys) = false
arrays_equal (x ∷ xs) [] = false
arrays_equal (x ∷ xs) (y ∷ ys) = str_eq x y && arrays_equal xs ys

abbrev pub missing : DriftKind → String → Option String → List DriftDifference
missing kind object expected =
    record {
      kind = kind;
      object = object;
      detail = missing_in_db;
      expected = expected;
      actual = none;
    }
    ∷ []

abbrev pub unexpected : DriftKind → String → Option String → List DriftDifference
unexpected kind object actual =
    record {
      kind = kind;
      object = object;
      detail = unexpected_in_db;
      expected = none;
      actual = actual;
    }
    ∷ []

abbrev pub mismatched : DriftKind → String → String → String → List DriftDifference
mismatched kind object expected actual =
    record {
      kind = kind;
      object = object;
      detail = mismatch;
      expected = some expected;
      actual = some actual;
    }
    ∷ []

-- The bodies of the loops over the expected entries, on the entry that the other side has under the
-- name, and over the actual ones, on whether the other side has a property of the name.
abbrev pub enum_expected : String → List String → Option (List String) → List DriftDifference
enum_expected name expected none = missing enum name (some (join expected))
enum_expected name expected (some actual) =
    if not (arrays_equal expected actual)
    then mismatched enum name (join expected) (join actual)
    else []

abbrev pub enum_actual : String → List String → Bool → List DriftDifference
enum_actual name actual false = unexpected enum name (some (join actual))
enum_actual name actual true = []

abbrev pub column_expected :
    String → String → CanonicalColumn → Option CanonicalColumn → List DriftDifference
column_expected table_name name expected none =
    missing column (table_name <> ("." <> name)) (some (describe_column expected))
column_expected table_name name expected (some actual) =
    if not (str_eq expected.type actual.type) || not (bool_eq expected.not_null actual.not_null)
    then mismatched column (table_name <> ("." <> name)) (describe_column expected)
        (describe_column actual)
    else []

abbrev pub column_actual : String → String → CanonicalColumn → Bool → List DriftDifference
column_actual table_name name actual false =
    unexpected column (table_name <> ("." <> name)) (some (describe_column actual))
column_actual table_name name actual true = []

abbrev pub index_expected : String → CanonicalIndex → Option CanonicalIndex → List DriftDifference
index_expected name expected none = missing index name (some (describe_index expected))
index_expected name expected (some actual) =
    if not (bool_eq expected.is_unique actual.is_unique)
      || not (arrays_equal expected.columns actual.columns)
    then mismatched index name (describe_index expected) (describe_index actual)
    else []

abbrev pub index_actual : String → CanonicalIndex → Bool → List DriftDifference
index_actual name actual false = unexpected index name (some (describe_index actual))
index_actual name actual true = []

abbrev pub foreign_key_differs : CanonicalForeignKey → CanonicalForeignKey → Bool
foreign_key_differs expected actual =
    not (arrays_equal expected.columns_from actual.columns_from)
    || (not (arrays_equal expected.columns_to actual.columns_to)
        || (not (str_eq expected.table_to actual.table_to)
            || (not (str_eq expected.on_delete actual.on_delete)
                || not (str_eq expected.on_update actual.on_update))))

abbrev pub foreign_key_expected :
    String → CanonicalForeignKey → Option CanonicalForeignKey → List DriftDifference
foreign_key_expected name expected none =
    missing foreign_key name (some (describe_foreign_key expected))
foreign_key_expected name expected (some actual) =
    if foreign_key_differs expected actual
    then mismatched foreign_key name (describe_foreign_key expected) (describe_foreign_key actual)
    else []

abbrev pub foreign_key_actual : String → CanonicalForeignKey → Bool → List DriftDifference
foreign_key_actual name actual false =
    unexpected foreign_key name (some (describe_foreign_key actual))
foreign_key_actual name actual true = []

abbrev pub primary_key_diff : String → List String → List String → List DriftDifference
primary_key_diff table_name expected actual =
    if not (arrays_equal expected actual)
    then mismatched primary_key table_name ("(" <> (join expected <> ")"))
        ("(" <> (join actual <> ")"))
    else []

-- `diffTable`
unfoldable pub diff_table : CanonicalTable → CanonicalTable → List DriftDifference
unfolding arrays_equal each_entry each_tested
diff_table expected actual =
    each_entry (column_expected expected.name) expected.columns actual.columns
    ++ (each_tested (column_actual expected.name) actual.columns expected.columns
        ++ (each_entry index_expected expected.indexes actual.indexes
            ++ (each_tested index_actual actual.indexes expected.indexes
                ++ (each_entry foreign_key_expected expected.foreign_keys actual.foreign_keys
                    ++ (each_tested foreign_key_actual actual.foreign_keys expected.foreign_keys
                        ++ primary_key_diff expected.name expected.primary_key_columns
                            actual.primary_key_columns)))))

abbrev pub table_expected : String → CanonicalTable → Option CanonicalTable → List DriftDifference
table_expected name expected none = missing table name none
table_expected name expected (some actual) = diff_table expected actual

abbrev pub table_actual : String → CanonicalTable → Bool → List DriftDifference
table_actual name actual false = unexpected table name none
table_actual name actual true = []

-- `diffSchemas`
unfoldable pub diff_schemas : CanonicalSchema → CanonicalSchema → List DriftDifference
unfolding diff_table
diff_schemas expected actual =
    each_entry enum_expected expected.enums actual.enums
    ++ (each_tested enum_actual actual.enums expected.enums
        ++ (each_entry table_expected expected.tables actual.tables
            ++ each_tested table_actual actual.tables expected.tables))

-- `planPreflight`, on the value of MIGRATE_SKIP_DRIFT_CHECK and the number of applied rows.
pub data PreflightPlan : Type 0 where
  skip_warned skip_virgin : PreflightPlan
  check_against : (expected_idx : ℕ) → PreflightPlan

abbrev pub is_one : Option String → Bool
is_one none = false
is_one (some value) = str_eq value "1"

unfoldable pub plan_preflight : Option String → ℕ → PreflightPlan
plan_preflight skip applied =
    if is_one skip
    then skip_warned
    else if applied == 0
    then skip_virgin
    else check_against (applied - 1)
