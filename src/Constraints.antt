-- ===== src/Constraints.antt =====
-- libs/execution/src/lib: constraints/executors/*.ts, constraints/constraint-executor-extension.ts,
-- types/value-types/value-representation-validity.ts and internal-representation-parsing.ts, with
-- the properties that execution-context.ts reads. An error that is thrown by an evaluation is thrown
-- on.
pub mod Executors
pub mod Validity
pub mod Valid
pub mod Accepted
use text.Mathlib.Text.{◌==◌}
use jayvee.Base.{
  ℕ, Bool, true, false, not, ◌&&◌, ◌||◌, Option, none, some, List, [], ◌∷◌, if◌then◌else◌, Result,
  NoError, ok, err, throws, ◌>>=◌, ◌>>◌, assert, defined, String,
}
use jayvee.Base.Dict.{lookup}
use jayvee.Expressions.{
  Outcome, gives, guard_fails, error_thrown, NodeKind, constraint_node, Value, boolean, number,
  string, regex, node, collection, Values, no_values, value, Expression, lazy, Runtime,
  parse_integer, EvaluationContext, set_value_for_value_keyword, delete_value_for_value_keyword,
}
use jayvee.Expressions.Evaluate.{evaluate_expression}
use jayvee.Expressions.Types.{
  ValueType, boolean_type, text_type, integer_type, decimal_type, regex_type, node_type,
  collection_type, empty_collection_type, atomic_type, rootless_type, is_boolean, is_number,
  is_string, is_regex, is_node, is_collection_of, is_empty_collection,
}

-- `Number.isInteger` and `Number.parseFloat`
pub record Numerals (N : Type 0) : Type 0 where
  pub is_integer_number : N → Bool
  pub parse_float : String → N

-- The value of a property assignment: a property of a composite block type, a runtime parameter with
-- its name, if there is one, or an expression.
pub data PropertyValue (N R : Type 0) : Type 0 where
  block_type_property : PropertyValue N R
  runtime_parameter : Option String → PropertyValue N R
  property_expression : Expression N R → PropertyValue N R

-- A node with a property body, and the default values of the properties of its type.
pub record PropertyBody (N R : Type 0) : Type 0 where
  pub properties : List (String × PropertyValue N R)
  pub default_values : List (String × Value N R)

-- A constraint definition: with a constraint type, or an expression on the value keyword
pub data ConstraintType : Type 0 where
  allowlist_constraint : ConstraintType
  denylist_constraint : ConstraintType
  regex_constraint : ConstraintType
  length_constraint : ConstraintType
  range_constraint : ConstraintType

pub data Constraint (N R : Type 0) : Type 0 where
  typed_constraint : ConstraintType → PropertyBody N R → Constraint N R
  expression_constraint : Expression N R → Constraint N R

abbrev pub thrown_on : {A : Type 0} → Outcome A → Result NoError A
thrown_on (gives a) = ok a
thrown_on guard_fails = throws
thrown_on error_thrown = throws

module _ {N R : Type 0} (js : Runtime N R) (numerals : Numerals N) where
  -- `isInternalValueRepresentation`, with its tests for integers and finite numbers
  abbrev pub is_integer_value : Value N R → Bool
  is_integer_value (number n) = numerals.is_integer_number n
  is_integer_value _ = false

  abbrev pub is_finite_value : Value N R → Bool
  is_finite_value (number n) = js.is_finite n
  is_finite_value _ = false

  unfoldable pub is_internal_value_representation : ValueType → Value N R → Bool
  is_internal_value_representation boolean_type v = is_boolean v
  is_internal_value_representation text_type v = is_string v
  is_internal_value_representation integer_type v = is_integer_value v
  is_internal_value_representation decimal_type v = is_finite_value v
  is_internal_value_representation regex_type v = is_regex v
  is_internal_value_representation (node_type k) v = is_node k v
  is_internal_value_representation (collection_type t) v =
      is_collection_of (is_internal_value_representation t) v
  is_internal_value_representation empty_collection_type v = is_empty_collection v
  is_internal_value_representation (atomic_type i t) v = is_internal_value_representation t v
  is_internal_value_representation (rootless_type i) v = false

  -- `InternalRepresentationParserVisitor`: the result, or undefined (`none`)
  abbrev pub number_if : Option N → Option (Value N R)
  number_if none = none
  number_if (some n) = some (number n)

  abbrev pub boolean_if : Option Bool → Option (Value N R)
  boolean_if none = none
  boolean_if (some b) = some (boolean b)

  unfoldable pub parse_by_type : String → ValueType → Result NoError (Option (Value N R))
  parse_by_type s boolean_type = ok (boolean_if (js.parse_boolean s))
  parse_by_type s decimal_type = ok (number_if (js.parse_decimal s))
  parse_by_type s integer_type = ok (number_if (parse_integer js s))
  parse_by_type s text_type = ok (some (string s))
  parse_by_type s (atomic_type i t) = parse_by_type s t
  parse_by_type s (rootless_type i) = throws
  parse_by_type s _ = ok none

  -- `parseValueToInternalRepresentation`
  abbrev pub if_representation : ValueType → Option (Value N R) → Option (Value N R)
  if_representation t none = none
  if_representation t (some v) = if is_internal_value_representation t v then some v else none

  unfoldable pub parse_value_to_internal_representation :
      String → ValueType → Result NoError (Option (Value N R))
  parse_value_to_internal_representation s t = do
    result ← parse_by_type s t
    ok (if_representation t result)

  module _ (runtime_parameters : List (String × String)) where
    -- `RuntimeParameterProvider.getParsedValue`, with the parser of the interpreter
    abbrev pub get_parsed_value : String → ValueType → Result NoError (Option (Value N R))
    get_parsed_value key t = elim (lookup key runtime_parameters) [
      | none ↦ ok none
      | some s ↦ parse_value_to_internal_representation s t
    ]

    -- `evaluatePropertyValue`, up to its last assertion
    abbrev pub property_result :
        PropertyValue N R → EvaluationContext N R → ValueType → Result NoError (Option (Value N R))
    property_result block_type_property c t = ok none
    property_result (runtime_parameter none) c t = ok none
    property_result (runtime_parameter (some name)) c t = get_parsed_value name t
    property_result (property_expression e) c t = thrown_on (evaluate_expression js lazy c e)

    abbrev pub checked_result : ValueType → Option (Value N R) → Result NoError (Option (Value N R))
    checked_result t none = ok none
    checked_result t (some v) = do assert (is_internal_value_representation t v); ok (some v)

    unfoldable pub evaluate_property_value :
        PropertyValue N R → EvaluationContext N R → ValueType → Result NoError (Option (Value N R))
    evaluate_property_value property c t = property_result property c t >>= checked_result t

    -- `getDefaultPropertyValue`
    abbrev pub get_default_property_value :
        PropertyBody N R → String → ValueType → Result NoError (Value N R)
    get_default_property_value body name t = do
      default_value ← defined (lookup name body.default_values)
      assert (is_internal_value_representation t default_value)
      ok default_value

    -- `ExecutionContext.getPropertyValue` in the node with the given body
    unfoldable pub get_property_value :
        PropertyBody N R → EvaluationContext N R → String → ValueType → Result NoError (Value N R)
    get_property_value body c name t = elim (lookup name body.properties) [
      | none ↦ get_default_property_value body name t
      | some property ↦ (do result ← evaluate_property_value property c t; defined result)
    ]
