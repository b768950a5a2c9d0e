-- ===== src/Tabular/TableInterpreter/Added.antt =====
-- A row that the table interpreter reads is one that addRow accepts.
use text.Mathlib.Text.{◌==◌ as str_eq}
use jayvee.Base.{
  ◌≡◌, refl, sym, ap, ◌∙◌, subst, Bool, true, false, Option, none, some, List, [], ◌∷◌, length,
  get_elem?, All, String, Bool-cases, inl, inr, Result, NoError, ok, >>=-eq-ok, ok_injective,
  if◌then◌else◌, ◌==◌, ==_iff,
}
use jayvee.Base.Dict.{lookup}
use jayvee.Sheet.{Sheet, Cell}
use jayvee.Expressions.{Value, Runtime, EvaluationContext}
use jayvee.Expressions.Types.{
  ValueType, boolean_type, text_type, integer_type, decimal_type, regex_type, node_type,
  collection_type, empty_collection_type, atomic_type, rootless_type,
}
use jayvee.Constraints.{Numerals, is_internal_value_representation}
use jayvee.Constraints.Validity.{Definitions, is_valid_value_representation}
use jayvee.Table.{Table, TableColumn}
use jayvee.Table.Accepts.{All-insert, Fits, add_row-ok}
use jayvee.Validation.{check_unique_names}
use jayvee.Validation.Names.{includes_name}
use jayvee.Tabular.TableInterpreter.{
  ColumnDefinition, ColumnDefinitionEntry, column_entries, parse_cell, validate,
  parse_and_validate_value, put_cell, is_undefined, read_cells, construct_table_row, add_if,
}
use jayvee.Tabular.TableInterpreter.Named.{definition_names, read_cells-counted}

module _ {N R : Type 0} (js : Runtime N R) (numerals : Numerals N)
    (runtime_parameters : List (String × String)) (definitions : Definitions N R) where
  -- What is valid for a type represents it.
  is_valid-is_internal :
      (v : Value N R) (t : ValueType) (c c' : EvaluationContext N R)
      → is_valid_value_representation js numerals runtime_parameters definitions v t c
        ≡ ok (true, c')
      → is_internal_value_representation js numerals t v ≡ true
  unfolding is_valid_value_representation is_internal_value_representation
  is_valid-is_internal v (atomic_type i t) c c' e =
      let (r, found, e') =
        >>=-eq-ok (is_valid_value_representation js numerals runtime_parameters definitions v t c) _
          e in
      elim (Bool-cases r.0) [
        | inl holds ↦ is_valid-is_internal v t c r.1 (found ∙ ap (λ b. ok (b, r.1)) holds)
        | inr fails ↦
            let ended : ◌≡◌ {A = Result NoError (Bool × EvaluationContext N R)} (ok (false, r.1))
                (ok (true, c')) =
              rw fails at e' in
            let absurd : false ≡ true = ap (λ x. x.0) (ok_injective ended) in cc
      ]
  is_valid-is_internal v (rootless_type i) c c' e = cc
  is_valid-is_internal v boolean_type c c' e = ap (λ x. x.0) (ok_injective e)
  is_valid-is_internal v text_type c c' e = ap (λ x. x.0) (ok_injective e)
  is_valid-is_internal v integer_type c c' e = ap (λ x. x.0) (ok_injective e)
  is_valid-is_internal v decimal_type c c' e = ap (λ x. x.0) (ok_injective e)
  is_valid-is_internal v regex_type c c' e = ap (λ x. x.0) (ok_injective e)
  is_valid-is_internal v (node_type k) c c' e = ap (λ x. x.0) (ok_injective e)
  is_valid-is_internal v (collection_type x) c c' e = ap (λ x. x.0) (ok_injective e)
  is_valid-is_internal v empty_collection_type c c' e = ap (λ x. x.0) (ok_injective e)

  -- What a cell is read as, if anything, represents the type.
  abbrev IsRead : ValueType → Option (Value N R) → Type 0
  IsRead t none = Unit
  IsRead t (some v) = is_internal_value_representation js numerals t v ≡ true

  validate-IsRead :
      (o p : Option (Value N R)) (t : ValueType) (c c' : EvaluationContext N R)
      → validate js numerals runtime_parameters definitions o t c ≡ ok (p, c')
      → IsRead t p
  validate-IsRead none p t c c' e = subst (IsRead t) (ap (λ x. x.0) (ok_injective e)) tt
  validate-IsRead (some v) p t c c' e =
      let (r, found, e') =
        >>=-eq-ok (is_valid_value_representation js numerals runtime_parameters definitions v t c) _
          e in
      let given = ap (λ x. x.0) (ok_injective e') in
      elim (Bool-cases r.0) [
        | inl valid ↦
            let same : some v ≡ p = rw valid at given in
            subst (IsRead t) same
              (is_valid-is_internal v t c r.1 (found ∙ ap (λ b. ok (b, r.1)) valid))
        | inr not_valid ↦ let same : none ≡ p = rw not_valid at given in subst (IsRead t) same tt
      ]

  -- A table has a column of the right type for each entry.
  abbrev pub HasColumns :
      List (String × TableColumn (Value N R) ValueType) → List ColumnDefinitionEntry → Type 0
  HasColumns columns es =
      All
        (λ e.
          (column : TableColumn (Value N R) ValueType) × (lookup e.column_name columns
            ≡ some column)
          × (column.value_type ≡ e.value_type))
        es

  parse_and_validate_value-IsRead :
      (cell : Option Cell) (t : ValueType) (c : EvaluationContext N R)
      (o : Option (Value N R) × EvaluationContext N R)
      → parse_and_validate_value js numerals runtime_parameters definitions cell t c ≡ ok o
      → IsRead t o.0
  unfolding parse_and_validate_value
  parse_and_validate_value-IsRead cell t c o e =
      let (p, _, checked) =
        >>=-eq-ok (parse_cell js numerals runtime_parameters definitions cell t) _ e in
      validate-IsRead p o.0 t c o.1 checked

  put_cell-Fits :
      (columns : List (String × TableColumn (Value N R) ValueType)) (entry : ColumnDefinitionEntry)
      (o : Option (Value N R)) (row : List (String × Value N R))
      → ((column : TableColumn (Value N R) ValueType) × (lookup entry.column_name columns
            ≡ some column)
          × (column.value_type ≡ entry.value_type))
      → IsRead entry.value_type o
      → All (Fits (is_internal_value_representation js numerals) columns) row
      → All
          (Fits (is_internal_value_representation js numerals) columns)
          (put_cell entry.column_name o row)
  put_cell-Fits columns entry none row known read f = f
  put_cell-Fits columns entry (some v) row (column, found, same) read f =
      elim (Bool-cases (str_eq entry.column_name "__proto__")) [
        | inl prototype ↦ rw prototype f
        | inr other ↦ rw other (
            All-insert (Fits (is_internal_value_representation js numerals) columns)
              entry.column_name v row
              (
                column,
                found,
                subst (λ t. is_internal_value_representation js numerals t v ≡ true) (sym same)
                    read,
              )
              f)
      ]

  read_cells-Fits :
      (columns : List (String × TableColumn (Value N R) ValueType)) (sheet_row : List Cell)
      (es : List ColumnDefinitionEntry) (b : Bool) (row : List (String × Value N R))
      (c : EvaluationContext N R) (r : (Bool × List (String × Value N R)) × EvaluationContext N R)
      → HasColumns columns es
      → All (Fits (is_internal_value_representation js numerals) columns) row
      → read_cells js numerals runtime_parameters definitions sheet_row es b row c ≡ ok r
      → All (Fits (is_internal_value_representation js numerals) columns) r.0.1
  unfolding read_cells parse_and_validate_value
  read_cells-Fits columns sheet_row [] b row c r h f e =
      subst (λ x. All (Fits (is_internal_value_representation js numerals) columns) x.0.1)
        (ok_injective e) f
  read_cells-Fits columns sheet_row (entry ∷ es) b row c r (known, h) f e =
      let cell = get_elem? sheet_row entry.sheet_column_index in
      let (o, parsed, e') =
        >>=-eq-ok
          (parse_and_validate_value js numerals runtime_parameters definitions cell entry.value_type
            c)
          _ e in
      let read = parse_and_validate_value-IsRead cell entry.value_type c o parsed in
      read_cells-Fits columns sheet_row es (if is_undefined o.0 then true else b)
        (put_cell entry.column_name o.0 row) o.1 r h
        (put_cell-Fits columns entry o.0 row known read f) e'

  -- When the check of unique names reports nothing on the column definitions, and none of them is
  -- named `__proto__`, no assertion fails on a row whose cells can be read, neither that of
  -- `constructAndValidateTableRow` nor those of `addRow` on a table with the columns of the entries:
  -- the row is left out if one of its cells is invalid, and is added to the table otherwise.
  pub construct_table_row-add_if :
      (header : Bool) (ds : List ColumnDefinition) (sheet : Sheet) (es : List ColumnDefinitionEntry)
      (sheet_row : List Cell) (c : EvaluationContext N R)
      (r : (Bool × List (String × Value N R)) × EvaluationContext N R)
      (t : Table (Value N R) ValueType)
      → check_unique_names (definition_names ds) ≡ []
      → includes_name (definition_names ds) "__proto__" ≡ false
      → column_entries header ds sheet ≡ ok es
      → HasColumns t.columns es
      → length t.columns ≡ length es
      → read_cells js numerals runtime_parameters definitions sheet_row es false [] c ≡ ok r
      → (o : Option (List (String × Value N R))) × (o ≡ (if r.0.0 then none else some r.0.1))
        × (construct_table_row js numerals runtime_parameters definitions sheet_row es c
            ≡ ok (o, r.1))
        × (t' : Table (Value N R) ValueType) × (add_if js numerals runtime_parameters definitions o
              t
            ≡ ok t')
  unfolding construct_table_row
  construct_table_row-add_if header ds sheet es sheet_row c r t unique own entries known same read =
      let fits = read_cells-Fits t.columns sheet_row es false [] c r known tt read in
      elim (Bool-cases r.0.0) [
        | inl invalid ↦ (none, rw invalid refl, rw (read, invalid) refl, t, refl)
        | inr valid ↦
            elim (read_cells-counted js numerals runtime_parameters definitions header ds sheet es
              sheet_row c r unique own entries read) [
                | inl invalid ↦ let absurd : true ≡ false = sym invalid ∙ valid in cc
                | inr counted ↦
                    let (t', added) =
                      add_row-ok (is_internal_value_representation js numerals) r.0.1 t
                        (counted ∙ sym same) fits in
                    let whole : (length r.0.1 == length es) ≡ true = (==_iff _ _).1 counted in
                    (some r.0.1, rw valid refl, rw (read, valid, whole) refl, t', added)
              ]
      ]
