-- ===== src/Tabular/TableTransformer/Exact.antt =====
-- The table that the table transformer gives.
use jayvee.Base.{
  ℕ, ◌-◌, ◌≡◌, refl, sym, ap, ◌∙◌, subst, none, List, [], length, Result, NoError, ok, err, throws,
  >>=-eq-ok, ok_injective, String, arith, ==_iff,
}
use jayvee.Base.Dict.{insert}
use jayvee.Expressions.{Value, Runtime, EvaluationContext}
use jayvee.Expressions.Types.{ValueType}
use jayvee.Constraints.{Numerals}
use jayvee.Constraints.Validity.{Definitions}
use jayvee.Transforms.{Transform, get_input_details, get_output_details, execute_transform}
use jayvee.Transforms.Increasing.{IsIncreasing, increasing-IsDistinct, increasing-below}
use jayvee.Transforms.Rows.{AreTransformed, execute_transform-AreTransformed}
use jayvee.Table.{Table, TableColumn, add_column}
use jayvee.Table.Shape.{IsRectangle, add_column-IsRectangle}
use jayvee.Table.Rows.{without_rows, drop_rows-eq-without_rows, clone-eq, without_rows-IsRectangle}
use jayvee.Tabular.TableTransformer.{
  without_error, check_input_columns_exist, create_output_table, match_input_types, execute,
}

without_error-eq-ok :
    {A : Type 0} (r : Result NoError A) (a : A) → without_error r ≡ ok a → r ≡ ok a
without_error-eq-ok (ok b) a e = ap ok (ok_injective e)
without_error-eq-ok (err x) a e = elim x [ ]
without_error-eq-ok throws a e = cc

all_rows :
    {N R : Type 0} {x : ValueType} {n : ℕ} {vs : List (Value N R)} {rows : List ℕ}
    → AreTransformed x 0 n vs rows
    → IsIncreasing 0 n rows
all_rows {n = n} {rows = rows} a = subst (λ l. IsIncreasing 0 l rows) (omega arith) a.increasing

add_column-eq :
    {V T : Type 0} (name : String) (column : TableColumn V T) (t : Table V T)
    → length column.values ≡ t.number_of_rows
    → add_column name column t ≡ ok (record t { columns = insert name column t.columns })
unfolding add_column
add_column-eq name column t h = rw ((==_iff _ _).1 h) refl

module _ {N R : Type 0} where
  -- `t` without the rows, and with the column under the name
  abbrev pub with_output :
      Table (Value N R) ValueType
      → TableColumn (Value N R) ValueType
      → List ℕ
      → String
      → Table (Value N R) ValueType
  with_output t column rows name =
      let kept = without_rows rows t in record kept { columns = insert name column kept.columns }

  -- On a rectangular table, and a column and rows to delete that a transform gives for its rows, the
  -- output table is created without any failed assertion: it is the table without those rows, with
  -- the column under the output name.
  pub create_output_table-eq :
      (t : Table (Value N R) ValueType) (column : TableColumn (Value N R) ValueType)
      (rows_to_delete : List ℕ) (name : String)
      → IsRectangle t
      → AreTransformed column.value_type 0 t.number_of_rows column.values rows_to_delete
      → create_output_table t column rows_to_delete name
        ≡ ok (with_output t column rows_to_delete name)
  unfolding create_output_table add_column
  create_output_table-eq t column rows name r a =
      rw
        (
          clone-eq t r,
          drop_rows-eq-without_rows rows t
              (increasing-IsDistinct 0 t.number_of_rows rows (all_rows a))
              (increasing-below 0 t.number_of_rows rows (all_rows a)),
          (==_iff (length column.values) (t.number_of_rows - length rows)).1
              (omega (arith, a.counted)),
        )
        refl

module _ {N R : Type 0} where
  with_output-IsRectangle :
      (t : Table (Value N R) ValueType) (column : TableColumn (Value N R) ValueType) (rows : List ℕ)
      (name : String)
      → IsRectangle t
      → AreTransformed column.value_type 0 t.number_of_rows column.values rows
      → IsRectangle (with_output t column rows name)
  with_output-IsRectangle t column rows name r a =
      let kept = without_rows rows t in
      let added : add_column name column kept ≡ ok (with_output t column rows name) =
        add_column-eq name column kept (omega (arith, a.counted)) in
      add_column-IsRectangle name column kept _
        (without_rows-IsRectangle rows t
          (increasing-IsDistinct 0 t.number_of_rows rows (all_rows a))
          (increasing-below 0 t.number_of_rows rows (all_rows a)) r)
        added

  -- What the block makes of a table: for some column and rows to delete, the table without those
  -- rows and with that column, each value of which has the shape of the type of the column.
  pub record IsTransformed (t t' : Table (Value N R) ValueType) (name : String) : Type 0 where
    pub column : TableColumn (Value N R) ValueType
    pub rows_to_delete : List ℕ
    pub transformed :
        AreTransformed column.value_type 0 t.number_of_rows column.values rows_to_delete
    pub result : t' ≡ with_output t column rows_to_delete name
    pub rectangle : IsRectangle t'

module _ {N R : Type 0} (js : Runtime N R) (numerals : Numerals N)
    (runtime_parameters : List (String × String)) (definitions : Definitions N R) where
  -- On a rectangular table and outside of any expression constraint, a table transformer that succeeds
  -- gives a rectangular table again: the input without the rows that the transform deletes, and
  -- with the new column under the output name. The values and the deleted rows are together as
  -- many as the rows of the input, and every value has the shape of the column's type.
  pub execute-IsTransformed :
      (inputs : List String) (name : String) (used : Transform N R) (c : EvaluationContext N R)
      (t t' : Table (Value N R) ValueType)
      → IsRectangle t
      → c.value_keyword_value ≡ none
      → execute js numerals runtime_parameters definitions inputs name used c t ≡ ok t'
      → IsTransformed t t' name
  unfolding execute
  execute-IsTransformed inputs name used c t t' r k e =
      let (_, _, e₁) = >>=-eq-ok (check_input_columns_exist inputs t) _ e in
      let (details, _, e₂) = >>=-eq-ok (without_error (get_input_details used)) _ e₁ in
      let (_, _, e₅) = >>=-eq-ok (without_error (get_output_details used)) _ e₂ in
      let (columns, _, e₃) = >>=-eq-ok (match_input_types 0 inputs t details []) _ e₅ in
      let (result, found, e₄) =
        >>=-eq-ok
          (without_error (
            execute_transform js numerals runtime_parameters definitions used columns
              t.number_of_rows c))
          _ e₃ in
      let a =
        execute_transform-AreTransformed js numerals runtime_parameters definitions used columns
          t.number_of_rows c result.0 result.1 k (without_error-eq-ok _ result found) in
      let created = create_output_table-eq t result.0 result.1 name r a in
      let given = without_error-eq-ok (create_output_table t result.0 result.1 name) t' e₄ in
      record {
        column = result.0;
        rows_to_delete = result.1;
        transformed = a;
        result = ok_injective (sym given ∙ created);
        rectangle =
            subst IsRectangle (ok_injective (sym created ∙ given))
              (with_output-IsRectangle t result.0 result.1 name r a);
      }
