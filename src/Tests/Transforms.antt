-- ===== src/Tests/Transforms.antt =====
-- Tests of constraints, transforms and the table transformer.
use jayvee.Base.{ℕ, ◌≡◌, refl, ◌↔◌, true, some, List, [], ◌∷◌, ok, String}
use jayvee.Base.Dict.{lookup, insert, erase}
use jayvee.Base.Sorting.{sort_desc}
use jayvee.Expressions.{
  Value, string, number, collection, no_values, value, node, constraint_node, literal, reference,
  variable,
}
use jayvee.Expressions.Evaluate.{evaluate_expression}
use jayvee.Expressions.Types.{ValueType, text_type, atomic_type, has_shape, is_convertible_to}
use jayvee.Constraints.{
  Numerals, typed_constraint, length_constraint, property_expression,
  is_internal_value_representation, get_property_value, evaluate_property_value,
}
use jayvee.Constraints.Validity.{
  Definitions, is_valid_value_representation, get_constraints, fulfills_all,
}
use jayvee.Constraints.Executors.{is_valid, typed_is_valid, length_is_valid}
use jayvee.Constraints.Valid.{IsValid}
use jayvee.Constraints.Accepted.{
  is_valid_value_representation-context, is_valid_value_representation_iff,
  is_valid_value_representation-has_shape,
}
use jayvee.Transforms.{
  Transform, PortDetails, from_port, to_port, execute_transform, get_input_details,
  get_output_details, get_port_details, transform_rows, transform_row, add_variables_to_context,
  remove_variables_from_context, kept_value,
}
use jayvee.Transforms.Rows.{AreTransformed, execute_transform-AreTransformed}
use jayvee.Transforms.Values.{RowsGive, execute_transform-RowsGive}
use jayvee.Table.{Table, TableColumn, clone, clone_columns, drop_rows, drop_each, add_column}
use jayvee.Table.Shape.{IsRectangle}
use jayvee.Tabular.TableTransformer.{
  execute, create_output_table, check_input_columns_exist, match_input_types,
}
use jayvee.Tabular.TableTransformer.Exact.{
  create_output_table-eq, with_output, execute-IsTransformed, IsTransformed,
}
use jayvee.Tests.Programs.{naturals, empty_context}

abbrev pub numerals : Numerals ℕ
numerals = record { is_integer_number = λ n. true; parse_float = λ s. 0 }

-- The type 1 is Text with one constraint, on the length.
abbrev pub named : Definitions ℕ String
named = record {
  constraints_of = λ i. literal (collection (value (node constraint_node 7) no_values));
  constraint_definition = λ i. typed_constraint length_constraint (record {
    properties = ("minLength", property_expression (literal (number 0))) ∷ [];
    default_values = ("maxLength", number 5) ∷ [];
  });
}

abbrev pub name_type : ValueType
name_type = atomic_type 1 text_type

abbrev ada : Value ℕ String
ada = string "ada"

ada_accepted :
    is_valid_value_representation naturals numerals [] named ada name_type empty_context
    ≡ ok (true, empty_context)
unfolding is_valid_value_representation is_internal_value_representation get_constraints
    evaluate_expression fulfills_all is_valid typed_is_valid length_is_valid get_property_value
    lookup evaluate_property_value
ada_accepted = refl

is_valid_value_representation-has_shape_example : has_shape name_type ada ≡ true
is_valid_value_representation-has_shape_example =
    is_valid_value_representation-has_shape naturals numerals [] named empty_context refl ada
      name_type empty_context ada_accepted

is_valid_value_representation_iff_example :
    is_valid_value_representation naturals numerals [] named ada name_type empty_context
      ≡ ok (true, empty_context)
    ↔ IsValid naturals numerals [] named empty_context refl ada name_type
is_valid_value_representation_iff_example =
    is_valid_value_representation_iff naturals numerals [] named empty_context refl ada name_type

is_valid_value_representation-context_example : empty_context ≡ empty_context
is_valid_value_representation-context_example =
    is_valid_value_representation-context naturals numerals [] named empty_context refl ada
      name_type true empty_context ada_accepted

-- `transform { from name oftype text; to out oftype text; out: name; }`
abbrev copied : Transform ℕ String
copied = record {
  ports =
      record { kind = from_port; name = "name"; value_type = some text_type }
      ∷ record { kind = to_port; name = "out"; value_type = some name_type }
      ∷ [];
  output_assignments = reference (variable "name") ∷ [];
}

abbrev names_column : TableColumn (Value ℕ String) ValueType
names_column = record { values = string "ada" ∷ string "bob" ∷ []; value_type = text_type }

abbrev copied_column : TableColumn (Value ℕ String) ValueType
copied_column = record { values = string "ada" ∷ string "bob" ∷ []; value_type = name_type }

names_copied :
    execute_transform naturals numerals [] named copied
      (("name", names_column) ∷ [])
      2
      empty_context
    ≡ ok (copied_column, [])
unfolding is_valid_value_representation is_internal_value_representation get_constraints
    evaluate_expression fulfills_all is_valid typed_is_valid length_is_valid get_property_value
    lookup evaluate_property_value execute_transform get_input_details get_output_details
    get_port_details transform_rows transform_row add_variables_to_context
    remove_variables_from_context kept_value insert erase
names_copied = refl

names_transformed : AreTransformed {N = ℕ} {R = String} name_type 0 2 copied_column.values []
names_transformed =
    execute_transform-AreTransformed naturals numerals [] named copied (("name", names_column) ∷ [])
      2 empty_context copied_column [] refl names_copied

abbrev copied_inputs : List PortDetails
copied_inputs = record { port = "name"; value_type = text_type } ∷ []

abbrev copied_output : PortDetails
copied_output = record { port = "out"; value_type = name_type }

execute_transform-RowsGive_example :
    RowsGive naturals numerals [] named copied copied_inputs copied_output
      (("name", names_column) ∷ [])
      empty_context
      2
      0
      copied_column.values
      []
    × (copied_column.value_type ≡ copied_output.value_type)
unfolding get_input_details get_output_details get_port_details lookup
execute_transform-RowsGive_example =
    execute_transform-RowsGive naturals numerals [] named copied copied_inputs copied_output
      (("name", names_column) ∷ []) 2 empty_context copied_column [] refl (refl, tt) refl refl
      names_copied

abbrev people : Table (Value ℕ String) ValueType
people = record { number_of_rows = 2; columns = ("first", names_column) ∷ [] }

people-IsRectangle : IsRectangle people
people-IsRectangle = record { rows = (refl, tt); distinct = (tt, tt) }

create_output_table-eq_example :
    create_output_table people copied_column [] "second"
    ≡ ok (with_output people copied_column [] "second")
create_output_table-eq_example =
    create_output_table-eq people copied_column [] "second" people-IsRectangle names_transformed

abbrev people_twice : Table (Value ℕ String) ValueType
people_twice = record {
  number_of_rows = 2;
  columns = ("first", names_column) ∷ ("second", copied_column) ∷ [];
}

people_transformed :
    execute naturals numerals [] named ("first" ∷ []) "second" copied empty_context people
    ≡ ok people_twice
unfolding is_valid_value_representation is_internal_value_representation get_constraints
    evaluate_expression fulfills_all is_valid typed_is_valid length_is_valid get_property_value
    lookup evaluate_property_value execute_transform get_input_details get_output_details
    get_port_details transform_rows transform_row add_variables_to_context
    remove_variables_from_context kept_value insert erase execute check_input_columns_exist
    match_input_types create_output_table clone clone_columns drop_rows drop_each add_column
    is_convertible_to sort_desc
people_transformed = refl

execute-IsTransformed_example : IsTransformed people people_twice "second"
execute-IsTransformed_example =
    execute-IsTransformed naturals numerals [] named ("first" ∷ []) "second" copied empty_context
      people people_twice people-IsRectangle refl people_transformed
