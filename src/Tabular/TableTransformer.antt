-- ===== src/Tabular/TableTransformer.antt =====
-- table-transformer-executor.ts. The log messages, those about a column that is overwritten among them,
-- are left out.
pub mod Exact
use jayvee.Base.{
  ℕ, zero, suc, Bool, true, false, Option, none, some, List, [], ◌∷◌, get_elem?, if◌then◌else◌,
  Result, NoError, ok, err, throws, ◌>>=◌, ◌>>◌, assert, defined, String,
}
use jayvee.Base.Dict.{lookup, insert}
use jayvee.Expressions.{Value, Runtime, EvaluationContext}
use jayvee.Expressions.Types.{ValueType, is_convertible_to}
use jayvee.Constraints.{Numerals}
use jayvee.Constraints.Validity.{Definitions}
use jayvee.Transforms.{
  Transform, PortDetails, VariableColumns, get_input_details, get_output_details, execute_transform,
}
use jayvee.Table.{Table, TableColumn, add_column, drop_rows, clone}

-- The errors that the block returns.
pub data TransformerError : Type 0 where
  no_input_column not_convertible : TransformerError

-- A call that returns no error, where errors can be returned
abbrev pub without_error : {A : Type 0} → Result NoError A → Result TransformerError A
without_error (ok a) = ok a
without_error (err e) = elim e [ ]
without_error throws = throws

module _ {V T : Type 0} where
  -- `Table.getColumn`
  abbrev pub get_column : String → Table V T → Option (TableColumn V T)
  get_column name t = lookup name t.columns

  unfoldable pub check_input_columns_exist :
      List String → Table V T → Result TransformerError (Unit {0})
  check_input_columns_exist [] t = ok tt
  check_input_columns_exist (name ∷ names) t = elim (get_column name t) [
    | none ↦ err no_input_column
    | some column ↦ check_input_columns_exist names t
  ]

  -- `createOutputTable`
  unfoldable pub create_output_table :
      Table V T → TableColumn V T → List ℕ → String → Result NoError (Table V T)
  create_output_table input_table resulting_column rows_to_delete output_column_name = do
    output_table ← clone input_table
    output_table' ← drop_rows rows_to_delete output_table
    add_column output_column_name resulting_column output_table'

module _ {N R : Type 0} where
  -- The loop of `checkInputColumnsMatchTransformInputTypes`, from the index of the first of the names
  unfoldable pub match_input_types :
      ℕ
      → List String
      → Table (Value N R) ValueType
      → List PortDetails
      → VariableColumns N R
      → Result TransformerError (VariableColumns N R)
  match_input_types i [] t details variable_columns = ok variable_columns
  match_input_types i (name ∷ names) t details variable_columns = do
    column ← defined (get_column name t)
    matching ← defined (get_elem? details i)
    if is_convertible_to column.value_type matching.value_type
        then match_input_types (suc i) names t details
            (insert matching.port column variable_columns)
        else err not_convertible

module _ {N R : Type 0} (js : Runtime N R) (numerals : Numerals N)
    (runtime_parameters : List (String × String)) (definitions : Definitions N R) where
  -- `doExecute`, from the values of the three properties
  unfoldable pub execute :
      List String
      → String
      → Transform N R
      → EvaluationContext N R
      → Table (Value N R) ValueType
      → Result TransformerError (Table (Value N R) ValueType)
  execute input_column_names output_column_name used_transform c input_table = do
    check_input_columns_exist input_column_names input_table
    details ← without_error (get_input_details used_transform)
    output_details ← without_error (get_output_details used_transform)
    columns ← match_input_types 0 input_column_names input_table details []
    result ← without_error (
        execute_transform js numerals runtime_parameters definitions used_transform columns
          input_table.number_of_rows c)
    without_error (create_output_table input_table result.0 result.1 output_column_name)
