-- ===== src/Db/Drift/Same.antt =====
-- drift-check.ts: no difference is reported exactly where the schemas are the same.
use swift_agent.Common.{
  ◌≡◌, refl, subst, ◌↔◌, String, Bool, true, false, not, ◌||◌, List, [], ◌∷◌, str_eq, eq_iff,
  eq_refl, arith, if◌then◌else◌,
}
use swift_agent.Db.Drift.{
  CanonicalColumn, CanonicalIndex, CanonicalForeignKey, CanonicalTable, CanonicalSchema,
  DriftDifference, bool_eq, arrays_equal, enum_expected, enum_actual, column_expected,
  column_actual, index_expected, index_actual, foreign_key_expected, foreign_key_actual,
  foreign_key_differs, table_expected, table_actual, diff_table, diff_schemas,
}
use swift_agent.Db.Drift.Entries.{
  append-empty, empty-append, SameBy, IsRecord, OwnBy, Compares, Compares-same, same-Compares,
}

-- Defaults are left out, as are the names that columns, indexes and keys hold a second time.
abbrev pub SameColumn : CanonicalColumn → CanonicalColumn → Type 0
SameColumn a b = (a.type ≡ b.type) × (a.not_null ≡ b.not_null)

abbrev pub SameIndex : CanonicalIndex → CanonicalIndex → Type 0
SameIndex a b = (a.is_unique ≡ b.is_unique) × (a.columns ≡ b.columns)

abbrev pub SameForeignKey : CanonicalForeignKey → CanonicalForeignKey → Type 0
SameForeignKey a b =
    (a.columns_from ≡ b.columns_from)
    × (a.columns_to ≡ b.columns_to)
    × (a.table_to ≡ b.table_to)
    × (a.on_delete ≡ b.on_delete)
    × (a.on_update ≡ b.on_update)

abbrev pub SameTable : CanonicalTable → CanonicalTable → Type 0
SameTable a b =
    SameBy SameColumn a.columns b.columns
    × SameBy SameIndex a.indexes b.indexes
    × SameBy SameForeignKey a.foreign_keys b.foreign_keys
    × (a.primary_key_columns ≡ b.primary_key_columns)

abbrev pub SameSchema : CanonicalSchema → CanonicalSchema → Type 0
SameSchema a b = SameBy (λ x y. x ≡ y) a.enums b.enums × SameBy SameTable a.tables b.tables

abbrev pub Any : {A : Type 0} → A → Type 0
Any a = Unit

-- No name is inherited from `Object.prototype`.
abbrev pub OwnTable : CanonicalTable → Type 0
OwnTable t = OwnBy Any t.columns × OwnBy Any t.indexes × OwnBy Any t.foreign_keys

abbrev pub HasOwnNames : CanonicalSchema → Type 0
HasOwnNames s = OwnBy Any s.enums × OwnBy OwnTable s.tables

-- Every name stands once in its record.

abbrev pub IsTable : CanonicalTable → Type 0
IsTable t = IsRecord Any t.columns × IsRecord Any t.indexes × IsRecord Any t.foreign_keys

abbrev pub IsSchema : CanonicalSchema → Type 0
IsSchema s = IsRecord Any s.enums × IsRecord IsTable s.tables

arrays_equal-eq : (xs ys : List String) → arrays_equal xs ys ≡ true → xs ≡ ys
unfolding arrays_equal
arrays_equal-eq [] [] h = refl
arrays_equal-eq [] (y ∷ ys) h = cc
arrays_equal-eq (x ∷ xs) [] h = cc
arrays_equal-eq (x ∷ xs) (y ∷ ys) h = ground (arith, h, eq_iff x y, arrays_equal-eq xs ys)

arrays_equal_refl : (xs : List String) → arrays_equal xs xs ≡ true
unfolding arrays_equal
arrays_equal_refl [] = refl
arrays_equal_refl (x ∷ xs) = ground (arith, eq_refl x, arrays_equal_refl xs)

arrays_equal_iff : (xs ys : List String) → (arrays_equal xs ys ≡ true) ↔ (xs ≡ ys)
arrays_equal_iff xs ys =
    (arrays_equal-eq xs ys, λ h. subst (λ zs. arrays_equal xs zs ≡ true) h (arrays_equal_refl xs))

bool_eq_iff : (a b : Bool) → (bool_eq a b ≡ true) ↔ (a ≡ b)
bool_eq_iff true true = (λ h. refl, λ h. refl)
bool_eq_iff true false = (λ h. cc, λ h. cc)
bool_eq_iff false true = (λ h. cc, λ h. cc)
bool_eq_iff false false = (λ h. refl, λ h. refl)

-- A flag that is raised is reported.
flag_down : (b : Bool) (d : DriftDifference) → (if b then d ∷ [] else []) ≡ [] → b ≡ false
flag_down true d h = cc
flag_down false d h = refl

flag_silent : (b : Bool) (d : DriftDifference) → b ≡ false → (if b then d ∷ [] else []) ≡ []
flag_silent true d h = cc
flag_silent false d h = refl

column-Compares :
    (table_name : String)
    → Compares Any Any SameColumn (column_expected table_name) (column_actual table_name)
column-Compares table_name = record {
  misses = λ k a h. cc;
  refuses = λ k b h. cc;
  relates = λ k a b own h.
      let f : (not (str_eq a.type b.type) || not (bool_eq a.not_null b.not_null)) ≡ false =
        flag_down _ _ h in
      ground (arith, f, eq_iff a.type b.type, bool_eq_iff a.not_null b.not_null);
  accepts = λ k a b pa pb same.
      flag_silent _ _
        (ground (arith, same.0, same.1, eq_iff a.type b.type, bool_eq_iff a.not_null b.not_null));
  passes = λ k b. refl;
}

index-Compares : Compares Any Any SameIndex index_expected index_actual
index-Compares = record {
  misses = λ k a h. cc;
  refuses = λ k b h. cc;
  relates = λ k a b own h.
      let f : (not (bool_eq a.is_unique b.is_unique) || not (arrays_equal a.columns b.columns))
          ≡ false =
        flag_down _ _ h in
      ground (arith, f, bool_eq_iff a.is_unique b.is_unique, arrays_equal_iff a.columns b.columns);
  accepts = λ k a b pa pb same. flag_silent _ _ (
      ground (
        arith,
        same.0,
        same.1,
        bool_eq_iff a.is_unique b.is_unique,
        arrays_equal_iff a.columns b.columns,
      ));
  passes = λ k b. refl;
}

foreign_key-Compares : Compares Any Any SameForeignKey foreign_key_expected foreign_key_actual
foreign_key-Compares = record {
  misses = λ k a h. cc;
  refuses = λ k b h. cc;
  relates = λ k a b own h.
      let f : foreign_key_differs a b ≡ false = flag_down _ _ h in
      ground (
        arith,
        f,
        arrays_equal_iff a.columns_from b.columns_from,
        arrays_equal_iff a.columns_to b.columns_to,
        eq_iff a.table_to b.table_to,
        eq_iff a.on_delete b.on_delete,
        eq_iff a.on_update b.on_update,
      );
  accepts = λ k a b pa pb same. flag_silent _ _ (
      ground (
        arith,
        same,
        arrays_equal_iff a.columns_from b.columns_from,
        arrays_equal_iff a.columns_to b.columns_to,
        eq_iff a.table_to b.table_to,
        eq_iff a.on_delete b.on_delete,
        eq_iff a.on_update b.on_update,
      ));
  passes = λ k b. refl;
}

enum-Compares : Compares Any Any (λ x y. x ≡ y) enum_expected enum_actual
enum-Compares = record {
  misses = λ k a h. cc;
  refuses = λ k b h. cc;
  relates = λ k a b own h.
      let f : not (arrays_equal a b) ≡ false = flag_down _ _ h in
      ground (arith, f, arrays_equal_iff a b);
  accepts = λ k a b pa pb same. flag_silent _ _ (ground (arith, same, arrays_equal_iff a b));
  passes = λ k b. refl;
}

diff_table-Same : (a b : CanonicalTable) → OwnTable b → diff_table a b ≡ [] → SameTable a b
unfolding diff_table
diff_table-Same a b (oc, oi, of) h =
    let (c1, r1) = append-empty _ _ h in
    let (c2, r2) = append-empty _ _ r1 in
    let (i1, r3) = append-empty _ _ r2 in
    let (i2, r4) = append-empty _ _ r3 in
    let (f1, r5) = append-empty _ _ r4 in
    let (f2, pk) = append-empty _ _ r5 in
    let keys : not (arrays_equal a.primary_key_columns b.primary_key_columns) ≡ false =
      flag_down _ _ pk in
    (
      Compares-same Any Any SameColumn (column_expected a.name) (column_actual a.name)
          (column-Compares a.name) a.columns b.columns oc c1 c2,
      Compares-same Any Any SameIndex index_expected index_actual index-Compares a.indexes b.indexes
          oi i1 i2,
      Compares-same Any Any SameForeignKey foreign_key_expected foreign_key_actual
          foreign_key-Compares a.foreign_keys b.foreign_keys of f1 f2,
      ground (arith, keys, arrays_equal_iff a.primary_key_columns b.primary_key_columns),
    )

Same-diff_table :
    (a b : CanonicalTable) → IsTable a → IsTable b → SameTable a b → diff_table a b ≡ []
unfolding diff_table
Same-diff_table a b (ca, ia, fa) (cb, ib, fb) (cs, is, fs, ps) =
    let (c1, c2) =
      same-Compares Any Any SameColumn (column_expected a.name) (column_actual a.name)
        (column-Compares a.name) a.columns b.columns ca cb cs in
    let (i1, i2) =
      same-Compares Any Any SameIndex index_expected index_actual index-Compares a.indexes b.indexes
        ia ib is in
    let (f1, f2) =
      same-Compares Any Any SameForeignKey foreign_key_expected foreign_key_actual
        foreign_key-Compares a.foreign_keys b.foreign_keys fa fb fs in
    empty-append _ _ c1 (
      empty-append _ _ c2 (
        empty-append _ _ i1 (
          empty-append _ _ i2 (
            empty-append _ _ f1 (
              empty-append _ _ f2 (
                flag_silent _ _ (
                  ground
                    (arith, ps, arrays_equal_iff a.primary_key_columns b.primary_key_columns))))))))

IsTable-Compares : Compares IsTable OwnTable SameTable table_expected table_actual
IsTable-Compares = record {
  misses = λ k a h. cc;
  refuses = λ k b h. cc;
  relates = λ k a b own h. diff_table-Same a b own h;
  accepts = λ k a b pa pb same. Same-diff_table a b pa pb same;
  passes = λ k b. refl;
}

-- `diffSchemas` reports nothing exactly where the two schemas have the same enums with the same
-- values in order, and the same tables with the same columns (by type and NOT NULL), indexes,
-- foreign keys and primary key; every name stands once in its record, and no name of the
-- live schema is one that plain objects inherit.
pub diff_schemas-empty_iff :
    (expected actual : CanonicalSchema)
    → IsSchema expected
    → IsSchema actual
    → HasOwnNames actual
    → (diff_schemas expected actual ≡ []) ↔ SameSchema expected actual
unfolding diff_schemas
diff_schemas-empty_iff expected actual (ee, te) (ea, ta) own = (
  λ h.
      let (e1, r1) = append-empty _ _ h in
      let (e2, r2) = append-empty _ _ r1 in
      let (t1, t2) = append-empty _ _ r2 in
      (
        Compares-same Any Any (λ x y. x ≡ y) enum_expected enum_actual enum-Compares expected.enums
            actual.enums own.0 e1 e2,
        Compares-same IsTable OwnTable SameTable table_expected table_actual IsTable-Compares
            expected.tables actual.tables own.1 t1 t2,
      ),
  λ same.
      let (e1, e2) =
        same-Compares Any Any (λ x y. x ≡ y) enum_expected enum_actual enum-Compares expected.enums
          actual.enums ee ea same.0 in
      let (t1, t2) =
        same-Compares IsTable OwnTable SameTable table_expected table_actual IsTable-Compares
          expected.tables actual.tables te ta same.1 in
      empty-append _ _ e1 (empty-append _ _ e2 (empty-append _ _ t1 t2)),
)
