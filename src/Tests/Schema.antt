-- ===== src/Tests/Schema.antt =====
-- A snapshot with one table, and the rows of a database that has it.
use swift_agent.Common.{◌≡◌, ◌↔◌, true, false, [], ◌∷◌, none, refl, set_key, get_key}
use swift_agent.Db.Drift.Same.{SameSchema, HasOwnNames}
use swift_agent.Db.Drift.Rows.{Snapshot, RawIntrospection}
use swift_agent.Db.Drift.Sides.{
  TextOps, for_each, project_snapshot, assemble_live_schema, has_drift,
}
use swift_agent.Db.Drift.Check.{has_drift-Same}

abbrev ops : TextOps
ops = record { trim = λ t. t; lower = λ t. t; upper = λ t. t; strip_cast = λ t. t; sort = λ ts. ts }

abbrev committed : Snapshot
committed = record {
  tables =
      record {
        name = "runs";
        columns =
            record {
              name = "id";
              type = "text";
              primary_key = true;
              not_null = true;
              default = none;
            }
            ∷ [];
        indexes = [];
        foreign_keys = [];
        composite_primary_keys = [];
      }
      ∷ [];
  enums = ("status", "running" ∷ "failed" ∷ []) ∷ [];
}

abbrev introspected : RawIntrospection
introspected = record {
  tables = "runs" ∷ [];
  columns =
      record {
        table_name = "runs";
        column_name = "id";
        data_type = "text";
        udt_name = "text";
        is_nullable = "NO";
        column_default = none;
        character_maximum_length = none;
      }
      ∷ [];
  enums = ("status", "running") ∷ ("status", "failed") ∷ [];
  indexes = [];
  foreign_keys = [];
  primary_keys = record { table_name = "runs"; column_name = "id"; ord = 1 } ∷ [];
}

committed-HasOwnNames : HasOwnNames (project_snapshot ops committed)
unfolding project_snapshot set_key for_each get_key
committed-HasOwnNames = (((refl, tt), tt), ((refl, (((refl, tt), tt), tt, tt)), tt))

introspected-HasOwnNames : HasOwnNames (assemble_live_schema ops introspected)
unfolding assemble_live_schema set_key for_each get_key
introspected-HasOwnNames = (((refl, tt), tt), ((refl, (((refl, tt), tt), tt, tt)), tt))

has_drift-Same_example :
    (has_drift ops committed introspected ≡ false)
    ↔ SameSchema (project_snapshot ops committed) (assemble_live_schema ops introspected)
has_drift-Same_example =
    has_drift-Same ops committed introspected committed-HasOwnNames introspected-HasOwnNames
