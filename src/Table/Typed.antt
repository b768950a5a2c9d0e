-- ===== src/Table/Typed.antt =====
-- The types of the columns: `addRow` asserts that a value represents the type of its column.
use jayvee.Base.{
  ◌≡◌, subst, Bool, true, Option, some, List, [], ◌∷◌, length, All, All-append, ok, String,
  assert-eq-ok, defined-eq-ok, ok_injective, >>=-eq-ok, Bool-cases, inl, inr, ◌==◌, if◌then◌else◌,
}
use text.Mathlib.Text.{◌==◌ as str_eq}
use jayvee.Base.Dict.{lookup, insert}
use jayvee.Table.{TableColumn, Table, add_column, push_value, push_entries, add_row, add_entries}

module _ {V T : Type 0} (is_representation : T → V → Bool) where
  abbrev pub IsTypedColumn : TableColumn V T → Type 0
  IsTypedColumn c = All (λ v. is_representation c.value_type v ≡ true) c.values

  -- Every value of the table represents the type of its column.
  abbrev pub AreTypedColumns : List (String × TableColumn V T) → Type 0
  AreTypedColumns = All (λ e. IsTypedColumn e.1)

  insert-AreTypedColumns :
      (name : String) (column : TableColumn V T) (columns : List (String × TableColumn V T))
      → IsTypedColumn column
      → AreTypedColumns columns
      → AreTypedColumns (insert name column columns)
  unfolding insert
  insert-AreTypedColumns name column [] d h = (d, tt)
  insert-AreTypedColumns name column ((k, c) ∷ columns) d (p, h) =
      elim (Bool-cases (str_eq k name)) [
        | inl same ↦ rw same (d, h)
        | inr other ↦ rw other (p, insert-AreTypedColumns name column columns d h)
      ]

  lookup-IsTypedColumn :
      (name : String) (column : TableColumn V T) (columns : List (String × TableColumn V T))
      → AreTypedColumns columns
      → lookup name columns ≡ some column
      → IsTypedColumn column
  unfolding lookup
  lookup-IsTypedColumn name column [] h e = cc
  lookup-IsTypedColumn name column ((k, c) ∷ columns) (p, h) e = elim (Bool-cases (str_eq k name)) [
    | inl same ↦
        let found : ◌≡◌ {A = Option (TableColumn V T)} (some c) (some column) = rw same at e in
        subst IsTypedColumn (inner c column found) p
    | inr other ↦ lookup-IsTypedColumn name column columns h (rw (lookup, other) at e)
  ]
    where
      inner : (x y : TableColumn V T) → ◌≡◌ {A = Option (TableColumn V T)} (some x) (some y) → x ≡ y
      inner x y e = cc

  pub add_column-AreTypedColumns :
      (name : String) (column : TableColumn V T) (t t' : Table V T)
      → IsTypedColumn column
      → AreTypedColumns t.columns
      → add_column name column t ≡ ok t'
      → AreTypedColumns t'.columns
  unfolding add_column
  add_column-AreTypedColumns name column t t' d h e =
      let (_, e') = assert-eq-ok _ _ e in
      subst (λ x. AreTypedColumns x.columns) (ok_injective e')
        (insert-AreTypedColumns name column t.columns d h)

  push_entries-AreTypedColumns :
      (row : List (String × V)) (columns columns' : List (String × TableColumn V T))
      → AreTypedColumns columns
      → push_entries is_representation row columns ≡ ok columns'
      → AreTypedColumns columns'
  unfolding push_entries
  push_entries-AreTypedColumns [] columns columns' h e = subst AreTypedColumns (ok_injective e) h
  push_entries-AreTypedColumns ((name, v) ∷ row) columns columns' h e =
      let (c, found, e') = defined-eq-ok (lookup name columns) _ e in
      let (fits, e'') = assert-eq-ok _ _ e' in
      let d = lookup-IsTypedColumn name c columns h found in
      push_entries-AreTypedColumns row _ columns'
        (insert-AreTypedColumns name (push_value c v) columns
          (All-append (λ x. is_representation c.value_type x ≡ true) c.values (v ∷ []) d (fits, tt))
          h)
        e''

  pub add_row-AreTypedColumns :
      (row : List (String × V)) (t t' : Table V T)
      → AreTypedColumns t.columns
      → add_row is_representation row t ≡ ok t'
      → AreTypedColumns t'.columns
  unfolding add_row add_entries
  add_row-AreTypedColumns row t t' h e =
      let whole = if length row == 0 then ok t else add_entries is_representation row t in
      let (_, e') = assert-eq-ok (length row == length t.columns) whole e in
      elim (Bool-cases (length row == 0)) [
        | inl is_empty ↦ subst (λ x. AreTypedColumns x.columns) (ok_injective (rw is_empty at e')) h
        | inr some_entry ↦
            let (_, e'') = assert-eq-ok _ _ (rw some_entry at e') in
            let (columns', pushed, e₃) =
              >>=-eq-ok (push_entries is_representation row t.columns) _ e'' in
            subst (λ x. AreTypedColumns x.columns) (ok_injective e₃)
              (push_entries-AreTypedColumns row t.columns columns' h pushed)
      ]
