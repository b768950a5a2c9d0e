-- ===== src/Tabular/TableInterpreter/Typed.antt =====
-- The table that the table interpreter reads from a sheet.
use text.Mathlib.Text.{◌==◌ as str_eq}
use jayvee.Base.{
  ◌+◌, ◌≤◌, ◌≡◌, refl, sym, ap, ◌∙◌, subst, Bool, false, Option, none, some, List, [], ◌∷◌, length,
  Result, NoError, ok, err, throws, >>=-eq-ok, ok_injective, assert-eq-ok, Bool-cases, inl, inr,
  String, arith,
}
use jayvee.Base.Dict.{HasDistinctKeys, HasDistinctKeys-insert}
use jayvee.Sheet.{Sheet, Cell}
use jayvee.Expressions.{Value, Runtime, EvaluationContext}
use jayvee.Expressions.Types.{ValueType}
use jayvee.Constraints.{Numerals, is_internal_value_representation}
use jayvee.Constraints.Validity.{Definitions}
use jayvee.Table.{Table, TableColumn, empty_table, add_column}
use jayvee.Table.Shape.{IsRectangle, add_column-IsRectangle, add_row-IsRectangle, add_row-eq}
use jayvee.Table.Typed.{AreTypedColumns, add_column-AreTypedColumns, add_row-AreTypedColumns}
use jayvee.Tabular.TableInterpreter.{
  ColumnDefinition, ColumnDefinitionEntry, without_error, parse_and_validate_value, put_cell,
  read_cells, construct_table_row, add_columns, add_if, add_rows, behind_header,
  construct_and_validate_table, column_entries, execute,
}

pub without_error-eq-ok :
    {A : Type 0} (r : Result NoError A) (a : A) → without_error r ≡ ok a → r ≡ ok a
without_error-eq-ok (ok b) a e = ap ok (ok_injective e)
without_error-eq-ok (err x) a e = elim x [ ]
without_error-eq-ok throws a e = cc

add_column-rows :
    {V T : Type 0} (name : String) (column : TableColumn V T) (t t' : Table V T)
    → add_column name column t ≡ ok t'
    → t'.number_of_rows ≡ t.number_of_rows
unfolding add_column
add_column-rows name column t t' e =
    let (_, e') = assert-eq-ok _ _ e in ap (λ x. x.number_of_rows) (sym (ok_injective e'))

module _ {N R : Type 0} (js : Runtime N R) (numerals : Numerals N)
    (runtime_parameters : List (String × String)) (definitions : Definitions N R) where
  put_cell-HasDistinctKeys :
      (name : String) (o : Option (Value N R)) (row : List (String × Value N R))
      → HasDistinctKeys row
      → HasDistinctKeys (put_cell name o row)
  put_cell-HasDistinctKeys name none row d = d
  put_cell-HasDistinctKeys name (some v) row d = elim (Bool-cases (str_eq name "__proto__")) [
    | inl prototype ↦ rw prototype d
    | inr other ↦ rw other (HasDistinctKeys-insert name v row d)
  ]

  read_cells-HasDistinctKeys :
      (sheet_row : List Cell) (entries : List ColumnDefinitionEntry) (b : Bool)
      (row : List (String × Value N R)) (c : EvaluationContext N R)
      (r : (Bool × List (String × Value N R)) × EvaluationContext N R)
      → HasDistinctKeys row
      → read_cells js numerals runtime_parameters definitions sheet_row entries b row c ≡ ok r
      → HasDistinctKeys r.0.1
  unfolding read_cells
  read_cells-HasDistinctKeys sheet_row [] b row c r d e =
      subst (λ x. HasDistinctKeys x.0.1) (ok_injective e) d
  read_cells-HasDistinctKeys sheet_row (entry ∷ entries) b row c r d e =
      let (o, _, e') =
        >>=-eq-ok (parse_and_validate_value js numerals runtime_parameters definitions _ _ c) _ e in
      read_cells-HasDistinctKeys sheet_row entries _ _ o.1 r
        (put_cell-HasDistinctKeys entry.column_name o.0 row d) e'

  construct_table_row-HasDistinctKeys :
      (sheet_row : List Cell) (entries : List ColumnDefinitionEntry) (c c' : EvaluationContext N R)
      (row : List (String × Value N R))
      → construct_table_row js numerals runtime_parameters definitions sheet_row entries c
        ≡ ok (some row, c')
      → HasDistinctKeys row
  unfolding construct_table_row
  construct_table_row-HasDistinctKeys sheet_row entries c c' row e =
      let (r, found, e') =
        >>=-eq-ok
          (read_cells js numerals runtime_parameters definitions sheet_row entries false [] c) _
          e in
      let d = read_cells-HasDistinctKeys sheet_row entries false [] c r tt found in
      elim (Bool-cases r.0.0) [
        | inl bad ↦
            let given : ◌≡◌
                {A = Result NoError (Option (List (String × Value N R)) × EvaluationContext N R)}
                (ok (none, r.1)) (ok (some row, c')) =
              rw bad at e' in
            let absurd : none ≡ some row = ap (λ x. x.0) (ok_injective given) in cc
        | inr good ↦
            let (_, given) = assert-eq-ok _ _ (rw good at e') in
            subst HasDistinctKeys (some_injective _ _ (ap (λ x. x.0) (ok_injective given))) d
      ]
    where
      some_injective : {A : Type 0} (x y : A) → ◌≡◌ {A = Option A} (some x) (some y) → x ≡ y
      some_injective x y e = cc

  -- A rectangular table whose values represent the types of their columns
  pub record IsSoundTable (t : Table (Value N R) ValueType) : Type 0 where
    pub rectangle : IsRectangle t
    pub typed : AreTypedColumns (is_internal_value_representation js numerals) t.columns

  add_columns-IsSoundTable :
      (entries : List ColumnDefinitionEntry) (t t' : Table (Value N R) ValueType)
      → t.number_of_rows ≡ 0
      → IsSoundTable t
      → add_columns entries t ≡ ok t'
      → IsSoundTable t' × (t'.number_of_rows ≡ 0)
  unfolding add_columns
  add_columns-IsSoundTable [] t t' z s e =
      let same = ok_injective e in
      (subst IsSoundTable same s, ap (λ x. x.number_of_rows) (sym same) ∙ z)
  add_columns-IsSoundTable (entry ∷ entries) t t' z s e =
      let column : TableColumn (Value N R) ValueType = record {
        values = [];
        value_type = entry.value_type;
      } in
      let (t₁, added, e') = >>=-eq-ok (add_column entry.column_name column t) _ e in
      add_columns-IsSoundTable entries t₁ t'
        (add_column-rows entry.column_name column t t₁ added ∙ z)
        (record {
          rectangle = add_column-IsRectangle entry.column_name column t t₁ s.rectangle added;
          typed =
              add_column-AreTypedColumns (is_internal_value_representation js numerals)
                entry.column_name column t t₁ tt s.typed added;
        })
        e'

  add_if-IsSoundTable :
      (o : Option (List (String × Value N R))) (t t' : Table (Value N R) ValueType)
      → ((row : List (String × Value N R)) → o ≡ some row → HasDistinctKeys row)
      → IsSoundTable t
      → add_if js numerals runtime_parameters definitions o t ≡ ok t'
      → IsSoundTable t' × (t'.number_of_rows ≤ t.number_of_rows + 1)
  add_if-IsSoundTable none t t' d s e =
      let same = ok_injective e in
      (subst IsSoundTable same s, omega (arith, ap (λ x. x.number_of_rows) same))
  add_if-IsSoundTable (some row) t t' d s e = (
    record {
      rectangle =
          add_row-IsRectangle (is_internal_value_representation js numerals) row t t' (d row refl)
            s.rectangle e;
      typed =
          add_row-AreTypedColumns (is_internal_value_representation js numerals) row t t' s.typed e;
    },
    elim (add_row-eq (is_internal_value_representation js numerals) row t t' (d row refl)
        s.rectangle e) [
          | inl (same, _) ↦ omega (arith, ap (λ x. x.number_of_rows) same)
          | inr (grown, _) ↦ omega (arith, ap (λ x. x.number_of_rows) grown)
        ],
  )

  add_rows-IsSoundTable :
      (rows : List (List Cell)) (entries : List ColumnDefinitionEntry) (c : EvaluationContext N R)
      (t t' : Table (Value N R) ValueType)
      → IsSoundTable t
      → add_rows js numerals runtime_parameters definitions rows entries c t ≡ ok t'
      → IsSoundTable t' × (t'.number_of_rows ≤ t.number_of_rows + length rows)
  unfolding add_rows
  add_rows-IsSoundTable [] entries c t t' s e =
      let same = ok_injective e in
      (subst IsSoundTable same s, omega (arith, ap (λ x. x.number_of_rows) same))
  add_rows-IsSoundTable (row ∷ rows) entries c t t' s e =
      let (r, read, e') =
        >>=-eq-ok (construct_table_row js numerals runtime_parameters definitions row entries c) _
          e in
      let (t₁, added, e'') =
        >>=-eq-ok (add_if js numerals runtime_parameters definitions r.0 t) _ e' in
      let (s₁, bound) =
        add_if-IsSoundTable r.0 t t₁
          (λ x same.
            construct_table_row-HasDistinctKeys row entries c r.1 x
              (read ∙ ap (λ o. ok (o, r.1)) same))
          s added in
      let (s', bound') = add_rows-IsSoundTable rows entries r.1 t₁ t' s₁ e'' in
      (s', omega (arith, bound, bound'))

  -- Whatever the sheet is, a table interpreter that succeeds gives a rectangular table in which every
  -- value represents the type of its column, with no more rows than the sheet has, its header left
  -- out where there is one.
  pub execute-IsSoundTable :
      (header : Bool) (column_definitions : List ColumnDefinition) (c : EvaluationContext N R)
      (sheet : Sheet) (t : Table (Value N R) ValueType)
      → execute js numerals runtime_parameters definitions header column_definitions c sheet ≡ ok t
      → IsSoundTable t × (t.number_of_rows ≤ length (behind_header header sheet.cells))
  unfolding execute construct_and_validate_table
  execute-IsSoundTable header column_definitions c sheet t e =
      let (entries, _, e') = >>=-eq-ok (column_entries header column_definitions sheet) _ e in
      let built =
        without_error-eq-ok
          (construct_and_validate_table js numerals runtime_parameters definitions sheet header
            entries c)
          t e' in
      let (t₁, columns, rows) = >>=-eq-ok (add_columns entries (empty_table 0)) _ built in
      let (s₁, none_yet) =
        add_columns-IsSoundTable entries (empty_table 0) t₁ refl
          (record { rectangle = record { rows = tt; distinct = tt }; typed = tt }) columns in
      let (s, bound) =
        add_rows-IsSoundTable (behind_header header sheet.cells) entries c t₁ t s₁ rows in
      (s, omega (arith, bound, none_yet))
