-- ===== src/Tests/Interpreter.antt =====
-- Tests of the table interpreter.
use jayvee.Base.{ℕ, ◌≡◌, ◌≤◌, refl, true, false, some, Option, List, [], ◌∷◌, ok, String, length}
use jayvee.Base.Dict.{lookup, insert}
use jayvee.Sheet.{Sheet, new_sheet}
use jayvee.Expressions.{Value, string}
use jayvee.Expressions.Types.{ValueType}
use jayvee.Expressions.Evaluate.{evaluate_expression}
use jayvee.Constraints.{
  is_internal_value_representation, parse_by_type, get_property_value, evaluate_property_value,
  parse_value_to_internal_representation,
}
use jayvee.Constraints.Validity.{is_valid_value_representation, get_constraints, fulfills_all}
use jayvee.Constraints.Executors.{is_valid, typed_is_valid, length_is_valid}
use jayvee.Table.{Table, TableColumn, add_column, add_entries, push_entries, add_row}
use jayvee.Tabular.TableInterpreter.{
  add_if, ColumnDefinition, ColumnDefinitionEntry, column_entries, execute,
  construct_and_validate_table, add_columns, add_rows, construct_table_row, read_cells,
  parse_and_validate_value, derive_from_header, behind_header,
}
use jayvee.Tabular.TableInterpreter.Typed.{IsSoundTable, execute-IsSoundTable}
use jayvee.Tabular.TableInterpreter.Named.{definition_names}
use jayvee.Tabular.TableInterpreter.Added.{construct_table_row-add_if}
use jayvee.Validation.{check_unique_names, group_nodes_by_name, check_groups}
use jayvee.Tests.Programs.{naturals, empty_context}
use jayvee.Tests.Transforms.{numerals, named, name_type}

-- The last row has no name.
abbrev names_sheet : Sheet
names_sheet =
    new_sheet
      ((some "age" ∷ some "name" ∷ []) ∷ (some "36" ∷ some "ada" ∷ []) ∷ (some "37" ∷ []) ∷ [])

abbrev columns : List ColumnDefinition
columns = record { name = "name"; type = some name_type } ∷ []

abbrev names_table : Table (Value ℕ String) ValueType
names_table = record {
  number_of_rows = 1;
  columns = ("name", record { values = string "ada" ∷ []; value_type = name_type }) ∷ [];
}

names_read :
    execute naturals numerals [] named true columns empty_context names_sheet ≡ ok names_table
unfolding is_valid_value_representation is_internal_value_representation get_constraints
    evaluate_expression fulfills_all is_valid typed_is_valid length_is_valid get_property_value
    lookup evaluate_property_value execute construct_and_validate_table add_columns add_rows
    construct_table_row read_cells parse_and_validate_value derive_from_header parse_by_type
    add_entries push_entries insert add_column add_row parse_value_to_internal_representation
names_read = refl

execute-IsSoundTable_example :
    IsSoundTable naturals numerals [] named names_table
    × (1 ≤ length (behind_header true names_sheet.cells))
execute-IsSoundTable_example =
    execute-IsSoundTable naturals numerals [] named true columns empty_context names_sheet
      names_table names_read

abbrev entries : List ColumnDefinitionEntry
entries = record { sheet_column_index = 1; column_name = "name"; value_type = name_type } ∷ []

names_unique : check_unique_names (definition_names columns) ≡ []
unfolding check_unique_names group_nodes_by_name check_groups lookup insert
names_unique = refl

entries_derived : column_entries true columns names_sheet ≡ ok entries
unfolding derive_from_header
entries_derived = refl

ada_read :
    read_cells naturals numerals [] named
      (some "36" ∷ some "ada" ∷ [])
      entries
      false
      []
      empty_context
    ≡ ok ((false, ("name", string "ada") ∷ []), empty_context)
unfolding is_valid_value_representation is_internal_value_representation get_constraints
    evaluate_expression fulfills_all is_valid typed_is_valid length_is_valid get_property_value
    lookup evaluate_property_value read_cells parse_and_validate_value parse_by_type insert
    parse_value_to_internal_representation
ada_read = refl

abbrev no_names_column : TableColumn (Value ℕ String) ValueType
no_names_column = record { values = []; value_type = name_type }

abbrev no_names : Table (Value ℕ String) ValueType
no_names = record { number_of_rows = 0; columns = ("name", no_names_column) ∷ [] }

construct_table_row-add_if_example :
    (o : Option (List (String × Value ℕ String))) × (o ≡ some (("name", string "ada") ∷ []))
    × (construct_table_row naturals numerals [] named
          (some "36" ∷ some "ada" ∷ [])
          entries
          empty_context
        ≡ ok (o, empty_context))
    × (t : Table (Value ℕ String) ValueType) × (add_if naturals numerals [] named o no_names ≡ ok t)
unfolding lookup
construct_table_row-add_if_example =
    construct_table_row-add_if naturals numerals [] named true columns names_sheet entries
      (some "36" ∷ some "ada" ∷ []) empty_context
      ((false, ("name", string "ada") ∷ []), empty_context) no_names names_unique refl
      entries_derived ((no_names_column, refl, refl), tt) refl ada_read
