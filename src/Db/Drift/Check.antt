-- ===== src/Db/Drift/Check.antt =====
-- drift-check.ts: the check of the live schema against the committed snapshot.
use swift_agent.Common.{
  ◌≡◌, refl, ap, ◌∙◌, ◌↔◌, String, false, List, [], ◌∷◌, map, Option, none, some, str_eq, get_key,
  if_cases, if◌then◌else◌,
}
use swift_agent.Db.Drift.{CanonicalTable, DriftDifference, diff_schemas}
use swift_agent.Db.Drift.Entries.{IsRecord, IsRecord-set, IsRecord-get}
use swift_agent.Db.Drift.Same.{
  Any, IsTable, IsSchema, SameSchema, HasOwnNames, diff_schemas-empty_iff,
}
use swift_agent.Db.Drift.Rows.{
  Snapshot, SnapshotTable, RawIntrospection, RawColumnRow, RawIndexRow, RawForeignKeyRow,
}
use swift_agent.Db.Drift.Sides.{
  TextOps, for_each, project_snapshot, project_table, add_snapshot_column, add_snapshot_index,
  add_snapshot_foreign_key, add_snapshot_table, add_snapshot_enum, assemble_live_schema,
  table_or_new, update_table, add_table, add_column, add_index, add_foreign_key, add_primary_key,
  column_in, index_in, foreign_key_in, primary_key_in, sort_keys, add_enum_value, live_tables,
  is_some_difference, has_drift,
}

for_each-keeps :
    {A S : Type 0} (P : S → Type 0) (f : A → S → S) (xs : List A) (s : S)
    → ((a : A) (t : S) → P t → P (f a t))
    → P s
    → P (for_each f xs s)
unfolding for_each
for_each-keeps P f [] s step h = h
for_each-keeps P f (a ∷ xs) s step h = for_each-keeps P f xs (f a s) step (step a s h)

module _ (ops : TextOps) where
  project_table-IsTable : (t : SnapshotTable) → IsTable (project_table ops t)
  project_table-IsTable t = (
    for_each-keeps (IsRecord Any) (add_snapshot_column ops) t.columns []
        (λ c m h. IsRecord-set Any c.name _ m tt h) tt,
    for_each-keeps (IsRecord Any) (add_snapshot_index ops) t.indexes []
        (λ i m h. IsRecord-set Any i.name _ m tt h) tt,
    for_each-keeps (IsRecord Any) (add_snapshot_foreign_key ops) t.foreign_keys []
        (λ f m h. IsRecord-set Any f.name _ m tt h) tt,
  )

  project_snapshot-IsSchema : (s : Snapshot) → IsSchema (project_snapshot ops s)
  unfolding project_snapshot
  project_snapshot-IsSchema s = (
    for_each-keeps (IsRecord Any) (add_snapshot_enum ops) s.enums []
        (λ e m h. IsRecord-set Any e.0 e.1 m tt h) tt,
    for_each-keeps (IsRecord IsTable) (add_snapshot_table ops) s.tables []
        (λ t m h. IsRecord-set IsTable t.name _ m (project_table-IsTable t) h) tt,
  )

  table_or_new-IsTable :
      (name : String) (o : Option CanonicalTable)
      → ((t : CanonicalTable) → o ≡ some t → IsTable t)
      → IsTable (table_or_new ops name o)
  table_or_new-IsTable name none h = (tt, tt, tt)
  table_or_new-IsTable name (some t) h = h t refl

  update_table-IsRecord :
      (name : String) (f : CanonicalTable → CanonicalTable) (ts : List (String × CanonicalTable))
      → ((t : CanonicalTable) → IsTable t → IsTable (f t))
      → IsRecord IsTable ts
      → IsRecord IsTable (update_table ops name f ts)
  update_table-IsRecord name f ts keeps h =
      IsRecord-set IsTable name _ ts
        (keeps _
          (table_or_new-IsTable name (get_key name ts) (λ t. IsRecord-get IsTable name ts t h)))
        h

  column_in-IsTable :
      (r : RawColumnRow) (t : CanonicalTable) → IsTable t → IsTable (column_in ops r t)
  column_in-IsTable r t (hc, hi, hf) = (IsRecord-set Any r.column_name _ t.columns tt hc, hi, hf)

  index_in-IsTable : (r : RawIndexRow) (t : CanonicalTable) → IsTable t → IsTable (index_in ops r t)
  index_in-IsTable r t (hc, hi, hf) = (hc, IsRecord-set Any r.index_name _ t.indexes tt hi, hf)

  foreign_key_in-IsTable :
      (r : RawForeignKeyRow) (t : CanonicalTable) → IsTable t → IsTable (foreign_key_in ops r t)
  foreign_key_in-IsTable r t (hc, hi, hf) =
      (hc, hi, IsRecord-set Any r.fk_name _ t.foreign_keys tt hf)

  live_tables-IsRecord : (raw : RawIntrospection) → IsRecord IsTable (live_tables ops raw)
  live_tables-IsRecord raw =
      for_each-keeps (IsRecord IsTable) (add_primary_key ops) _ _
        (λ r ts. update_table-IsRecord r.table_name (primary_key_in ops r) ts (λ t h. h))
        (for_each-keeps (IsRecord IsTable) (add_foreign_key ops) _ _
          (λ r ts.
            update_table-IsRecord r.table_from (foreign_key_in ops r) ts (foreign_key_in-IsTable r))
          (for_each-keeps (IsRecord IsTable) (add_index ops) _ _
            (λ r ts. update_table-IsRecord r.table_name (index_in ops r) ts (index_in-IsTable r))
            (for_each-keeps (IsRecord IsTable) (add_column ops) raw.columns _
              (λ r ts.
                update_table-IsRecord r.table_name (column_in ops r) ts (column_in-IsTable r))
              (for_each-keeps (IsRecord IsTable) (add_table ops) raw.tables []
                (λ name ts. update_table-IsRecord name (λ t. t) ts (λ t h. h)) tt))))

  get_key-sort_keys :
      (k : String) (ts : List (String × CanonicalTable))
      → get_key k ts ≡ none
      → get_key k (map (sort_keys ops) ts) ≡ none
  unfolding get_key
  get_key-sort_keys k [] h = refl
  get_key-sort_keys k ((j, t) ∷ ts) h =
      if_cases
        (λ (o : Option CanonicalTable).
          o ≡ none → get_key k (map (sort_keys ops) ((j, t) ∷ ts)) ≡ none)
        (str_eq j k) {x = some t} {y = get_key k ts} (λ same e. cc)
        (λ differ e.
          ap
            (λ b.
              if b
              then some (record t { primary_key_columns = ops.sort t.primary_key_columns })
              else get_key k (map (sort_keys ops) ts))
            differ
          ∙ get_key-sort_keys k ts e)
        h

  sort_keys-IsRecord :
      (ts : List (String × CanonicalTable))
      → IsRecord IsTable ts
      → IsRecord IsTable (map (sort_keys ops) ts)
  sort_keys-IsRecord [] h = tt
  sort_keys-IsRecord ((k, t) ∷ ts) (once, table, rest) =
      (get_key-sort_keys k ts once, table, sort_keys-IsRecord ts rest)

  assemble_live_schema-IsSchema : (raw : RawIntrospection) → IsSchema (assemble_live_schema ops raw)
  unfolding assemble_live_schema
  assemble_live_schema-IsSchema raw = (
    for_each-keeps (IsRecord Any) (add_enum_value ops) raw.enums []
        (λ e m h. IsRecord-set Any e.0 _ m tt h) tt,
    sort_keys-IsRecord (live_tables ops raw) (live_tables-IsRecord raw),
  )

no_difference : (ds : List DriftDifference) → (is_some_difference ds ≡ false) ↔ (ds ≡ [])
no_difference [] = (λ h. refl, λ h. refl)
no_difference (d ∷ ds) = (λ h. cc, λ h. cc)

-- Where no table, column, index, foreign key or enum of the snapshot or the database has a name that
-- plain objects inherit (such as `constructor`): `checkDrift` finds no drift exactly where the live schema, assembled of the introspected rows, and
-- the schema that is projected of the snapshot have the same enums with the same values in order,
-- and the same tables with the same columns (by type and NOT NULL), indexes, foreign keys and
-- primary key.
pub has_drift-Same :
    (ops : TextOps) (snapshot : Snapshot) (raw : RawIntrospection)
    → HasOwnNames (project_snapshot ops snapshot)
    → HasOwnNames (assemble_live_schema ops raw)
    → (has_drift ops snapshot raw ≡ false)
      ↔ SameSchema (project_snapshot ops snapshot) (assemble_live_schema ops raw)
unfolding has_drift
has_drift-Same ops snapshot raw expected_own own =
    let (empty, silent) =
      no_difference (diff_schemas (project_snapshot ops snapshot) (assemble_live_schema ops raw)) in
    let (same, back) =
      diff_schemas-empty_iff (project_snapshot ops snapshot) (assemble_live_schema ops raw)
        (project_snapshot-IsSchema ops snapshot) (assemble_live_schema-IsSchema ops raw) own in
    (λ h. same (empty h), λ h. silent (back h))
