-- ===== src/Db/Drift/Rows.antt =====
-- packages/db/src/snapshot.ts and packages/db/src/drift-check.ts: a committed snapshot, and the rows
-- that are introspected of the live database.
use swift_agent.Common.{ℕ, String, Bool, List, Option}

pub record SnapshotColumn : Type 0 where
  pub name : String
  pub type : String
  pub primary_key : Bool
  pub not_null : Bool
  pub default : Option String

pub record SnapshotIndexColumn : Type 0 where
  pub expression : String
  pub is_expression : Bool

pub record SnapshotIndex : Type 0 where
  pub name : String
  pub columns : List SnapshotIndexColumn
  pub is_unique : Bool

pub record SnapshotForeignKey : Type 0 where
  pub name : String
  pub table_to : String
  pub columns_from : List String
  pub columns_to : List String
  pub on_delete : Option String
  pub on_update : Option String

pub record SnapshotTable : Type 0 where
  pub name : String
  pub columns : List SnapshotColumn
  pub indexes : List SnapshotIndex
  pub foreign_keys : List SnapshotForeignKey
  pub composite_primary_keys : List (List String)

pub record Snapshot : Type 0 where
  pub tables : List SnapshotTable
  pub enums : List (String × List String)

-- The numbers of the rows that are shown are their numerals.
pub record RawColumnRow : Type 0 where
  pub table_name : String
  pub column_name : String
  pub data_type : String
  pub udt_name : String
  pub is_nullable : String
  pub column_default : Option String
  pub character_maximum_length : Option String

pub record RawIndexRow : Type 0 where
  pub index_name : String
  pub table_name : String
  pub is_unique : Bool
  pub column_name : String
  pub ord : ℕ

pub record RawForeignKeyRow : Type 0 where
  pub fk_name : String
  pub table_from : String
  pub table_to : String
  pub col_from : String
  pub col_to : String
  pub on_delete : String
  pub on_update : String
  pub ord : ℕ

pub record RawPrimaryKeyRow : Type 0 where
  pub table_name : String
  pub column_name : String
  pub ord : ℕ

pub record RawIntrospection : Type 0 where
  pub tables : List String
  pub columns : List RawColumnRow
  pub enums : List (String × String)
  pub indexes : List RawIndexRow
  pub foreign_keys : List RawForeignKeyRow
  pub primary_keys : List RawPrimaryKeyRow
