-- ===== src/Expressions/Types/Computers.antt =====
-- operator-type-computer.ts, type-computers/*.ts and the registry of operator-registry.ts: the type of
-- an operator's result by the types of its operands, or undefined (`none`).
use jayvee.Base.{Bool, true, false, ◌&&◌, ◌||◌, Option, none, some, if◌then◌else◌}
use jayvee.Expressions.{
  UnaryOperator, not_operator, plus_operator, minus_operator, sqrt_operator, floor_operator,
  ceil_operator, round_operator, lowercase_operator, uppercase_operator, as_decimal_operator,
  as_integer_operator, as_boolean_operator, as_text_operator, BinaryOperator, pow_operator,
  root_operator, multiplication_operator, division_operator, modulo_operator, addition_operator,
  subtraction_operator, less_than_operator, less_equal_operator, greater_than_operator,
  greater_equal_operator, equality_operator, inequality_operator, xor_operator, in_operator,
  matches_operator,
}
use jayvee.Expressions.Types.{
  ValueType, boolean_type, text_type, integer_type, decimal_type, regex_type, collection_type,
  equals, is_convertible_to,
}

-- `DefaultUnaryOperatorTypeComputer.computeType`, with the expected type and `doComputeType`
abbrev pub default_unary_type : ValueType → (ValueType → ValueType) → ValueType → Option ValueType
default_unary_type expected result operand =
    if is_convertible_to operand expected then some (result operand) else none

abbrev pub not_type_computer : ValueType → Option ValueType
not_type_computer = default_unary_type boolean_type (λ t. boolean_type)

abbrev pub sign_type_computer : ValueType → Option ValueType
sign_type_computer = default_unary_type decimal_type (λ t. t)

abbrev pub sqrt_type_computer : ValueType → Option ValueType
sqrt_type_computer = default_unary_type decimal_type (λ t. decimal_type)

abbrev pub integer_conversion_type_computer : ValueType → Option ValueType
integer_conversion_type_computer = default_unary_type decimal_type (λ t. integer_type)

abbrev pub string_transform_type_computer : ValueType → Option ValueType
string_transform_type_computer = default_unary_type text_type (λ t. text_type)

abbrev pub as_decimal_type_computer : ValueType → Option ValueType
as_decimal_type_computer = default_unary_type text_type (λ t. decimal_type)

abbrev pub as_integer_type_computer : ValueType → Option ValueType
as_integer_type_computer = default_unary_type text_type (λ t. integer_type)

abbrev pub as_boolean_type_computer : ValueType → Option ValueType
as_boolean_type_computer = default_unary_type text_type (λ t. boolean_type)

abbrev pub as_text_type_computer : ValueType → Option ValueType
as_text_type_computer = default_unary_type text_type (λ t. text_type)

-- The unary type computers of the registry
unfoldable pub compute_unary_type : UnaryOperator → ValueType → Option ValueType
compute_unary_type not_operator t = not_type_computer t
compute_unary_type plus_operator t = sign_type_computer t
compute_unary_type minus_operator t = sign_type_computer t
compute_unary_type sqrt_operator t = sqrt_type_computer t
compute_unary_type floor_operator t = integer_conversion_type_computer t
compute_unary_type ceil_operator t = integer_conversion_type_computer t
compute_unary_type round_operator t = integer_conversion_type_computer t
compute_unary_type lowercase_operator t = string_transform_type_computer t
compute_unary_type uppercase_operator t = string_transform_type_computer t
compute_unary_type as_decimal_operator t = as_decimal_type_computer t
compute_unary_type as_integer_operator t = as_integer_type_computer t
compute_unary_type as_boolean_operator t = as_boolean_type_computer t
compute_unary_type as_text_operator t = as_text_type_computer t

abbrev pub is_integer : ValueType → Bool
is_integer integer_type = true
is_integer _ = false

-- `BasicArithmeticOperatorTypeComputer.doComputeType`
abbrev pub arithmetic_type : ValueType → ValueType → ValueType
arithmetic_type left right =
    if is_integer left && is_integer right then integer_type else decimal_type

-- `DefaultBinaryOperatorTypeComputer.computeType`, with the expected types and the result
abbrev pub default_binary_type :
    ValueType → ValueType → ValueType → ValueType → ValueType → Option ValueType
default_binary_type expected_left expected_right left right result =
    if is_convertible_to left expected_left && is_convertible_to right expected_right
    then some result
    else none

abbrev pub is_equality_operand : ValueType → Bool
is_equality_operand boolean_type = true
is_equality_operand text_type = true
is_equality_operand integer_type = true
is_equality_operand decimal_type = true
is_equality_operand _ = false

-- `EqualityOperatorTypeComputer.computeType`
abbrev pub equality_type : ValueType → ValueType → Option ValueType
equality_type left right =
    if is_equality_operand left && is_equality_operand right
    then (if is_convertible_to left right || is_convertible_to right left
        then some boolean_type
        else none)
    else none

abbrev pub is_in_operand : ValueType → Bool
is_in_operand text_type = true
is_in_operand integer_type = true
is_in_operand decimal_type = true
is_in_operand _ = false

abbrev pub is_in_collection : ValueType → Bool
is_in_collection t =
    equals (collection_type text_type) t
    || (equals (collection_type integer_type) t || equals (collection_type decimal_type) t)

-- `InOperatorTypeComputer.computeType`; its assertion holds where the operand types are valid.
abbrev pub in_type : ValueType → ValueType → Option ValueType
in_type left (collection_type element) =
    if is_in_operand left && is_in_collection (collection_type element)
    then (if is_convertible_to left element || is_convertible_to element left
        then some boolean_type
        else none)
    else none
in_type left _ = none

abbrev pub exponential_type_computer : ValueType → ValueType → Option ValueType
exponential_type_computer l r = default_binary_type decimal_type decimal_type l r decimal_type

abbrev pub basic_arithmetic_type_computer : ValueType → ValueType → Option ValueType
basic_arithmetic_type_computer l r =
    default_binary_type decimal_type decimal_type l r (arithmetic_type l r)

abbrev pub division_type_computer : ValueType → ValueType → Option ValueType
division_type_computer l r = default_binary_type decimal_type decimal_type l r decimal_type

abbrev pub relational_type_computer : ValueType → ValueType → Option ValueType
relational_type_computer l r = default_binary_type decimal_type decimal_type l r boolean_type

abbrev pub logical_type_computer : ValueType → ValueType → Option ValueType
logical_type_computer l r = default_binary_type boolean_type boolean_type l r boolean_type

abbrev pub matches_type_computer : ValueType → ValueType → Option ValueType
matches_type_computer l r = default_binary_type text_type regex_type l r boolean_type

-- The binary type computers of the registry
unfoldable pub compute_binary_type : BinaryOperator → ValueType → ValueType → Option ValueType
compute_binary_type pow_operator l r = exponential_type_computer l r
compute_binary_type root_operator l r = exponential_type_computer l r
compute_binary_type multiplication_operator l r = basic_arithmetic_type_computer l r
compute_binary_type division_operator l r = division_type_computer l r
compute_binary_type modulo_operator l r = division_type_computer l r
compute_binary_type addition_operator l r = basic_arithmetic_type_computer l r
compute_binary_type subtraction_operator l r = basic_arithmetic_type_computer l r
compute_binary_type less_than_operator l r = relational_type_computer l r
compute_binary_type less_equal_operator l r = relational_type_computer l r
compute_binary_type greater_than_operator l r = relational_type_computer l r
compute_binary_type greater_equal_operator l r = relational_type_computer l r
compute_binary_type equality_operator l r = equality_type l r
compute_binary_type inequality_operator l r = equality_type l r
compute_binary_type xor_operator l r = logical_type_computer l r
compute_binary_type in_operator l r = in_type l r
compute_binary_type matches_operator l r = matches_type_computer l r

-- The type computer that the registry has for `and` and `or`
unfoldable pub compute_short_circuit_type : ValueType → ValueType → Option ValueType
compute_short_circuit_type l r = logical_type_computer l r

-- `ReplaceOperatorTypeComputer`
unfoldable pub compute_replace_type : ValueType → ValueType → ValueType → Option ValueType
compute_replace_type first second third =
    if is_convertible_to first text_type
      && (is_convertible_to second regex_type && is_convertible_to third text_type)
    then some text_type
    else none
