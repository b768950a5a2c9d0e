-- ===== src/Transforms.antt =====
-- execution/src/lib/transforms/transform-executor.ts: a transform computes the values of one column
-- from those of its input columns, row by row. The stack node of the transform, which only the log
-- reads here, is left out.
pub mod Increasing
pub mod Rows
pub mod Values
use jayvee.Base.{
  ℕ, zero, suc, Bool, true, false, ◌||◌, Option, none, some, List, [], ◌∷◌, get_elem?,
  if◌then◌else◌, Result, NoError, ok, err, throws, ◌>>=◌, ◌>>◌, assert, defined, String,
}
use jayvee.Base.Dict.{lookup}
use jayvee.Expressions.{
  Value, Expression, lazy, Runtime, EvaluationContext, set_value_for_reference,
  delete_value_for_reference,
}
use jayvee.Expressions.Evaluate.{evaluate_expression}
use jayvee.Expressions.Types.{ValueType, is_string, is_boolean, is_number}
use jayvee.Constraints.{Numerals, thrown_on}
use jayvee.Constraints.Validity.{Definitions, is_valid_value_representation}
use jayvee.Table.{TableColumn}

pub data PortKind : Type 0 where
  from_port : PortKind
  to_port : PortKind

-- A port, with the wrapped value type, if it can be wrapped
pub record TransformPort : Type 0 where
  pub kind : PortKind
  pub name : String
  pub value_type : Option ValueType

pub record PortDetails : Type 0 where
  pub port : String
  pub value_type : ValueType

pub record Transform (N R : Type 0) : Type 0 where
  pub ports : List TransformPort
  pub output_assignments : List (Expression N R)

abbrev pub same_port_kind : PortKind → PortKind → Bool
same_port_kind from_port from_port = true
same_port_kind to_port to_port = true
same_port_kind _ _ = false

-- `getPortDetails`
unfoldable pub get_port_details : PortKind → List TransformPort → Result NoError (List PortDetails)
get_port_details kind [] = ok []
get_port_details kind (p ∷ ports) =
    let others = get_port_details kind ports in
    if same_port_kind p.kind kind
    then (do
      value_type ← defined p.value_type
      details ← others
      ok (record { port = p.name; value_type = value_type } ∷ details))
    else others

-- `assert(xs.length === 1)`, and the one element
abbrev pub the_only {ℓ} : {A : Type ℓ} → List A → Result NoError A
the_only (x ∷ []) = ok x
the_only _ = throws

-- A value that is caught by the `try` block is undefined.
abbrev pub caught : {A : Type 0} → Result NoError (Option A) → Option A
caught (ok o) = o
caught _ = none

-- The columns by the names of their variables
abbrev pub VariableColumns : Type 0 → Type 0 → Type 0
VariableColumns N R = List (String × TableColumn (Value N R) ValueType)

module _ {N R : Type 0} where
  unfoldable pub get_input_details : Transform N R → Result NoError (List PortDetails)
  get_input_details t = get_port_details from_port t.ports

  unfoldable pub get_output_details : Transform N R → Result NoError PortDetails
  get_output_details t = get_port_details to_port t.ports >>= the_only

  abbrev pub get_output_assignment : Transform N R → Result NoError (Expression N R)
  get_output_assignment t = the_only t.output_assignments

  unfoldable pub add_variables_to_context :
      List PortDetails
      → VariableColumns N R
      → ℕ
      → EvaluationContext N R
      → Result NoError (EvaluationContext N R)
  add_variables_to_context [] columns row_index c = ok c
  add_variables_to_context (d ∷ ds) columns row_index c = do
    column ← defined (lookup d.port columns)
    variable_value ← defined (get_elem? column.values row_index)
    add_variables_to_context ds columns row_index (set_value_for_reference d.port variable_value c)

  unfoldable pub remove_variables_from_context :
      List PortDetails → EvaluationContext N R → EvaluationContext N R
  remove_variables_from_context [] c = c
  remove_variables_from_context (d ∷ ds) c =
      remove_variables_from_context ds (delete_value_for_reference d.port c)

module _ {N R : Type 0} (js : Runtime N R) (numerals : Numerals N)
    (runtime_parameters : List (String × String)) (definitions : Definitions N R) where
  -- The `try` block of `doExecuteTransform`
  abbrev pub new_value : Transform N R → EvaluationContext N R → Option (Value N R)
  new_value t c =
      caught (do e ← get_output_assignment t; thrown_on (evaluate_expression js lazy c e))

  -- The branches behind it: the value, or `none` for a row that is to be deleted
  unfoldable pub kept_value :
      Option (Value N R)
      → ValueType
      → EvaluationContext N R
      → Result NoError (Option (Value N R) × EvaluationContext N R)
  kept_value none output_type c = ok (none, c)
  kept_value (some v) output_type c = do
    (is_valid, c') ←
        is_valid_value_representation js numerals runtime_parameters definitions v output_type c
    if is_valid
        then ok (some v, c')
        else (do assert (is_string v || (is_boolean v || is_number v)); ok (none, c'))

  -- A turn of the loop of `doExecuteTransform`
  unfoldable pub transform_row :
      Transform N R
      → List PortDetails
      → PortDetails
      → VariableColumns N R
      → ℕ
      → EvaluationContext N R
      → Result NoError (Option (Value N R) × EvaluationContext N R)
  transform_row t inputs output columns row_index c = do
    c₁ ← add_variables_to_context inputs columns row_index c
    (kept, c₂) ← kept_value (new_value t c₁) output.value_type c₁
    ok (kept, remove_variables_from_context inputs c₂)

  abbrev pub put_value :
      ℕ → Option (Value N R) → List (Value N R) × List ℕ → List (Value N R) × List ℕ
  put_value row_index none (new_column, rows_to_delete) = (new_column, row_index ∷ rows_to_delete)
  put_value row_index (some v) (new_column, rows_to_delete) = (v ∷ new_column, rows_to_delete)

  -- The loop, over the rows that are left: the new column and the rows to delete
  unfoldable pub transform_rows :
      Transform N R
      → List PortDetails
      → PortDetails
      → VariableColumns N R
      → ℕ
      → ℕ
      → EvaluationContext N R
      → Result NoError ((List (Value N R) × List ℕ) × EvaluationContext N R)
  transform_rows t inputs output columns zero row_index c = ok (([], []), c)
  transform_rows t inputs output columns (suc rows) row_index c = do
    (kept, c') ← transform_row t inputs output columns row_index c
    (later, c'') ← transform_rows t inputs output columns rows (suc row_index) c'
    ok (put_value row_index kept later, c'')

  -- `executeTransform`: the resulting column and the rows to delete
  unfoldable pub execute_transform :
      Transform N R
      → VariableColumns N R
      → ℕ
      → EvaluationContext N R
      → Result NoError (TableColumn (Value N R) ValueType × List ℕ)
  execute_transform t columns number_of_rows c = do
    inputs ← get_input_details t
    output ← get_output_details t
    (result, c') ← transform_rows t inputs output columns number_of_rows 0 c
    ok (record { values = result.0; value_type = output.value_type }, result.1)
