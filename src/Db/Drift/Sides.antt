-- ===== src/Db/Drift/Sides.antt =====
-- packages/db/src/drift-check.ts: the expected schema of a committed snapshot and the live schema of
-- introspected rows (the types of packages/db/src/snapshot.ts), and the check of one on the other. The
-- lookups of a table, an index, a key or an enum by its name are in plain objects; the model looks
-- among own names alone, so it is not that of the code where a name is inherited from
-- `Object.prototype` (`ensureTable('constructor')` finds a function, and the code throws).
use Prim.Native.String.{slice}
use swift_agent.Common.{
  ℕ, ◌-◌, String, Bool, true, false, not, ◌&&◌, List, [], ◌∷◌, ◌++◌, map, keep, Option, none, some,
  str_eq, ◌<>◌, leb, starts_with, byte_length, has_string, if◌then◌else◌, get_key, set_key,
}
use swift_agent.Db.Drift.Rows.{
  SnapshotColumn, SnapshotIndexColumn, SnapshotIndex, SnapshotForeignKey, SnapshotTable, Snapshot,
  RawColumnRow, RawIndexRow, RawForeignKeyRow, RawPrimaryKeyRow, RawIntrospection,
}
use swift_agent.Db.Drift.{
  CanonicalColumn, CanonicalIndex, CanonicalForeignKey, CanonicalTable, CanonicalSchema,
  DriftDifference, diff_schemas,
}
use swift_agent.Db.Drift.Entries.{each_entry}

-- The engine's functions on texts: `trim`, `toLowerCase`, `toUpperCase`, the regular expression that
-- strips a trailing cast, and `sort()` of an array.
pub record TextOps : Type 0 where
  pub trim : String → String
  pub lower : String → String
  pub upper : String → String
  pub strip_cast : String → String
  pub sort : List String → List String

-- `for (const a of list)` on a state.
unfoldable pub for_each : {A S : Type 0} → (A → S → S) → List A → S → S
for_each f [] s = s
for_each f (a ∷ rest) s = for_each f rest (f a s)

-- `[...list].sort((a, b) => a.ord - b.ord)`, a stable sort.
module _ {A : Type 0} (ord : A → ℕ) where
  abbrev pub insert_by : A → List A → List A
  insert_by a [] = a ∷ []
  insert_by a (b ∷ bs) = if leb (ord a) (ord b) then a ∷ b ∷ bs else b ∷ insert_by a bs

  abbrev pub sort_by : List A → List A
  sort_by [] = []
  sort_by (a ∷ rest) = insert_by a (sort_by rest)

-- A single layer of surrounding quotes.
abbrev pub unquote : String → String
unquote s =
    if leb 2 (byte_length s)
      && (starts_with s "'" && str_eq (slice s (byte_length s - 1) (byte_length s)) "'")
    then slice s 1 (byte_length s - 1)
    else s

-- `differences.length > 0`
abbrev pub is_some_difference : List DriftDifference → Bool
is_some_difference [] = false
is_some_difference (d ∷ ds) = true

module _ (ops : TextOps) where
  unfoldable pub normalize_default : Option String → Option String
  normalize_default none = none
  normalize_default (some value) =
      some (ops.lower (ops.trim (unquote (ops.trim (ops.strip_cast (ops.trim value))))))

  abbrev pub normalize_action : Option String → String
  normalize_action none = ops.upper (ops.trim "no action")
  normalize_action (some action) = ops.upper (ops.trim action)

  abbrev pub project_column : SnapshotColumn → CanonicalColumn
  project_column c = record {
    name = c.name;
    type = c.type;
    not_null = c.not_null;
    default = normalize_default c.default;
  }

  abbrev pub add_snapshot_column :
      SnapshotColumn → List (String × CanonicalColumn) → List (String × CanonicalColumn)
  add_snapshot_column c = set_key c.name (project_column c)

  -- `if (!primaryKeyColumns.includes(c)) primaryKeyColumns.push(c)`
  abbrev pub push_new : String → List String → List String
  push_new c keys = if has_string c keys then keys else keys ++ c ∷ []

  abbrev pub primary_keys_of : SnapshotTable → List String
  primary_keys_of t =
      for_each (λ cs keys. for_each push_new cs keys) t.composite_primary_keys
        (map (λ (c : SnapshotColumn). c.name)
          (keep (λ (c : SnapshotColumn). c.primary_key) t.columns))

  abbrev pub add_snapshot_index :
      SnapshotIndex → List (String × CanonicalIndex) → List (String × CanonicalIndex)
  add_snapshot_index i = set_key i.name (record {
    name = i.name;
    columns =
        map (λ (c : SnapshotIndexColumn). c.expression)
          (keep (λ (c : SnapshotIndexColumn). not c.is_expression) i.columns);
    is_unique = i.is_unique;
  })

  abbrev pub add_snapshot_foreign_key :
      SnapshotForeignKey → List (String × CanonicalForeignKey) → List (String × CanonicalForeignKey)
  add_snapshot_foreign_key f = set_key f.name (record {
    name = f.name;
    columns_from = f.columns_from;
    table_to = f.table_to;
    columns_to = f.columns_to;
    on_delete = normalize_action f.on_delete;
    on_update = normalize_action f.on_update;
  })

  abbrev pub project_table : SnapshotTable → CanonicalTable
  project_table t = record {
    name = t.name;
    columns = for_each add_snapshot_column t.columns [];
    indexes = for_each add_snapshot_index t.indexes [];
    foreign_keys = for_each add_snapshot_foreign_key t.foreign_keys [];
    primary_key_columns = ops.sort (primary_keys_of t);
  }

  abbrev pub add_snapshot_table :
      SnapshotTable → List (String × CanonicalTable) → List (String × CanonicalTable)
  add_snapshot_table t = set_key t.name (project_table t)

  abbrev pub add_snapshot_enum :
      String × List String → List (String × List String) → List (String × List String)
  add_snapshot_enum e = set_key e.0 e.1

  -- `projectSnapshot`
  unfoldable pub project_snapshot : Snapshot → CanonicalSchema
  unfolding for_each normalize_default
  project_snapshot s = record {
    tables = for_each add_snapshot_table s.tables [];
    enums = for_each add_snapshot_enum s.enums [];
  }

  abbrev pub with_length : String → Option String → String
  with_length type none = type
  with_length type (some n) = type <> ("(" <> (n <> ")"))

  abbrev pub canonicalize_live_type : RawColumnRow → String
  canonicalize_live_type r =
      if str_eq r.data_type "USER-DEFINED"
      then r.udt_name
      else if str_eq r.data_type "character varying"
      then with_length "varchar" r.character_maximum_length
      else if str_eq r.data_type "character"
      then with_length "char" r.character_maximum_length
      else r.data_type

  -- `ensureTable`, on the table that is there.
  abbrev pub table_or_new : String → Option CanonicalTable → CanonicalTable
  table_or_new name (some t) = t
  table_or_new name none = record {
    name = name;
    columns = [];
    indexes = [];
    foreign_keys = [];
    primary_key_columns = [];
  }

  -- `ensureTable(name)`, with what is then written into the table.
  abbrev pub update_table :
      String
      → (CanonicalTable → CanonicalTable)
      → List (String × CanonicalTable)
      → List (String × CanonicalTable)
  update_table name f ts = set_key name (f (table_or_new name (get_key name ts))) ts

  abbrev pub add_table : String → List (String × CanonicalTable) → List (String × CanonicalTable)
  add_table name = update_table name (λ t. t)

  abbrev pub column_in : RawColumnRow → CanonicalTable → CanonicalTable
  column_in r t = record t {
    columns =
        set_key r.column_name
          (record {
            name = r.column_name;
            type = canonicalize_live_type r;
            not_null = str_eq r.is_nullable "NO";
            default = normalize_default r.column_default;
          })
          t.columns;
  }

  abbrev pub add_column :
      RawColumnRow → List (String × CanonicalTable) → List (String × CanonicalTable)
  add_column r = update_table r.table_name (column_in r)

  abbrev pub index_or_new : RawIndexRow → Option CanonicalIndex → CanonicalIndex
  index_or_new r (some i) = i
  index_or_new r none = record { name = r.index_name; columns = []; is_unique = r.is_unique }

  abbrev pub push_index_column : String → CanonicalIndex → CanonicalIndex
  push_index_column c i = record i { columns = i.columns ++ c ∷ [] }

  abbrev pub index_in : RawIndexRow → CanonicalTable → CanonicalTable
  index_in r t = record t {
    indexes =
        set_key r.index_name
          (push_index_column r.column_name (index_or_new r (get_key r.index_name t.indexes)))
          t.indexes;
  }

  abbrev pub add_index :
      RawIndexRow → List (String × CanonicalTable) → List (String × CanonicalTable)
  add_index r = update_table r.table_name (index_in r)

  abbrev pub foreign_key_or_new :
      RawForeignKeyRow → Option CanonicalForeignKey → CanonicalForeignKey
  foreign_key_or_new r (some f) = f
  foreign_key_or_new r none = record {
    name = r.fk_name;
    columns_from = [];
    table_to = r.table_to;
    columns_to = [];
    on_delete = normalize_action (some r.on_delete);
    on_update = normalize_action (some r.on_update);
  }

  abbrev pub push_foreign_key_columns : RawForeignKeyRow → CanonicalForeignKey → CanonicalForeignKey
  push_foreign_key_columns r f = record f {
    columns_from = f.columns_from ++ r.col_from ∷ [];
    columns_to = f.columns_to ++ r.col_to ∷ [];
  }

  abbrev pub foreign_key_in : RawForeignKeyRow → CanonicalTable → CanonicalTable
  foreign_key_in r t = record t {
    foreign_keys =
        set_key r.fk_name
          (push_foreign_key_columns r (foreign_key_or_new r (get_key r.fk_name t.foreign_keys)))
          t.foreign_keys;
  }

  abbrev pub add_foreign_key :
      RawForeignKeyRow → List (String × CanonicalTable) → List (String × CanonicalTable)
  add_foreign_key r = update_table r.table_from (foreign_key_in r)

  abbrev pub primary_key_in : RawPrimaryKeyRow → CanonicalTable → CanonicalTable
  primary_key_in r t = record t {
    primary_key_columns = t.primary_key_columns ++ r.column_name ∷ [];
  }

  abbrev pub add_primary_key :
      RawPrimaryKeyRow → List (String × CanonicalTable) → List (String × CanonicalTable)
  add_primary_key r = update_table r.table_name (primary_key_in r)

  abbrev pub sort_keys : String × CanonicalTable → String × CanonicalTable
  sort_keys (name, t) = (name, record t { primary_key_columns = ops.sort t.primary_key_columns })

  abbrev pub values_or_new : Option (List String) → List String
  values_or_new none = []
  values_or_new (some values) = values

  abbrev pub add_enum_value :
      String × String → List (String × List String) → List (String × List String)
  add_enum_value (name, value) es = set_key name (values_or_new (get_key name es) ++ value ∷ []) es

  abbrev pub live_tables : RawIntrospection → List (String × CanonicalTable)
  live_tables raw =
      for_each add_primary_key (sort_by (λ (r : RawPrimaryKeyRow). r.ord) raw.primary_keys) (
        for_each add_foreign_key (sort_by (λ (r : RawForeignKeyRow). r.ord) raw.foreign_keys) (
          for_each add_index (sort_by (λ (r : RawIndexRow). r.ord) raw.indexes)
            (for_each add_column raw.columns (for_each add_table raw.tables []))))

  -- `assembleLiveSchema`
  unfoldable pub assemble_live_schema : RawIntrospection → CanonicalSchema
  unfolding for_each normalize_default
  assemble_live_schema raw = record {
    tables = map sort_keys (live_tables raw);
    enums = for_each add_enum_value raw.enums [];
  }

  -- `hasDrift` of `checkDrift`, on the snapshot that is loaded and the rows that are introspected.
  unfoldable pub has_drift : Snapshot → RawIntrospection → Bool
  unfolding diff_schemas project_snapshot assemble_live_schema
  has_drift snapshot raw =
      is_some_difference (diff_schemas (project_snapshot snapshot) (assemble_live_schema raw))

-- `collectDefaultNotes`
abbrev pub format_default : Option String → String
format_default none = "(none)"
format_default (some value) = "`" <> (value <> "`")

abbrev pub same_default : Option String → Option String → Bool
same_default none none = true
same_default (some a) (some b) = str_eq a b
same_default _ _ = false

abbrev pub default_note : String → String → CanonicalColumn → Option CanonicalColumn → List String
default_note table_name name expected none = []
default_note table_name name expected (some actual) =
    if same_default expected.default actual.default
    then []
    else ("default differs on "
        <> (table_name
            <> ("."
                <> (name
                    <> (": expected "
                        <> (format_default expected.default
                            <> (", live "
                                <> (format_default actual.default
                                    <> " (informational — not treated as drift)"))))))))
      ∷ []

abbrev pub table_notes : String → CanonicalTable → Option CanonicalTable → List String
table_notes name expected none = []
table_notes name expected (some actual) =
    each_entry (default_note name) expected.columns actual.columns

unfoldable pub collect_default_notes : CanonicalSchema → CanonicalSchema → List String
unfolding each_entry
collect_default_notes expected actual = each_entry table_notes expected.tables actual.tables
