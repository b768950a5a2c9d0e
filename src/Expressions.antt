-- ===== src/Expressions.antt =====
-- libs/language-server/src/lib/ast/expressions: values, expressions, operators and the context of an
-- evaluation. The numbers of JavaScript (`N`) and its regular expressions (`R`) are parameters, with
-- the functions of the language on them in `Runtime`. Other AST nodes that are values are named by
-- their identity. The messages that a validation context collects are left out.
pub mod Operators
pub mod Evaluate
pub mod Strategies
pub mod Types
pub mod Inference
use jayvee.Base.{
  ℕ, Bool, true, false, not, ◌&&◌, ◌||◌, Option, none, some, List, [], ◌∷◌, String, if◌then◌else◌,
}
use jayvee.Base.Dict.{lookup, insert, erase}

-- What an evaluation of JavaScript code gives: a value, a failed assertion of a typeguard, or another
-- error that is thrown.
pub data Outcome {ℓ} (A : Type ℓ) : Type ℓ where
  gives : A → Outcome A
  guard_fails : Outcome A
  error_thrown : Outcome A

infixl 5 ◌>>=◌
abbrev pub ◌>>=◌ {ℓ κ} : {A : Type ℓ} {B : Type κ} → Outcome A → (A → Outcome B) → Outcome B
gives a >>= f = f a
guard_fails >>= f = guard_fails
error_thrown >>= f = error_thrown

-- The kinds of AST nodes that are values: `AtomicInternalValueRepresentation`
pub data NodeKind : Type 0 where
  cell_range_node : NodeKind
  constraint_node : NodeKind
  value_type_assignment_node : NodeKind
  transform_node : NodeKind

-- `InternalValueRepresentation`
mutual
  pub data Value (N R : Type 0) : Type 0 where
    boolean : Bool → Value N R
    number : N → Value N R
    string : String → Value N R
    regex : R → Value N R
    node : NodeKind → ℕ → Value N R
    collection : Values N R → Value N R

  pub data Values (N R : Type 0) : Type 0 where
    no_values : Values N R
    value : Value N R → Values N R → Values N R

pub data UnaryOperator : Type 0 where
  not_operator : UnaryOperator
  plus_operator : UnaryOperator
  minus_operator : UnaryOperator
  sqrt_operator : UnaryOperator
  floor_operator : UnaryOperator
  ceil_operator : UnaryOperator
  round_operator : UnaryOperator
  lowercase_operator : UnaryOperator
  uppercase_operator : UnaryOperator
  as_decimal_operator : UnaryOperator
  as_integer_operator : UnaryOperator
  as_boolean_operator : UnaryOperator
  as_text_operator : UnaryOperator

pub data BinaryOperator : Type 0 where
  pow_operator : BinaryOperator
  root_operator : BinaryOperator
  multiplication_operator : BinaryOperator
  division_operator : BinaryOperator
  modulo_operator : BinaryOperator
  addition_operator : BinaryOperator
  subtraction_operator : BinaryOperator
  less_than_operator : BinaryOperator
  less_equal_operator : BinaryOperator
  greater_than_operator : BinaryOperator
  greater_equal_operator : BinaryOperator
  equality_operator : BinaryOperator
  inequality_operator : BinaryOperator
  xor_operator : BinaryOperator
  in_operator : BinaryOperator
  matches_operator : BinaryOperator

-- The operators of `BooleanShortCircuitOperatorEvaluator`
pub data ShortCircuitOperator : Type 0 where
  and_operator : ShortCircuitOperator
  or_operator : ShortCircuitOperator

-- A reference literal, resolved: to nothing, to a constraint or transform, or to a transform port or
-- block type property by name.
pub data Reference : Type 0 where
  unresolved : Reference
  definition : NodeKind → ℕ → Reference
  variable : String → Reference

mutual
  pub data Expression (N R : Type 0) : Type 0 where
    missing : Expression N R
    reference : Reference → Expression N R
    value_keyword : Bool → Expression N R
    literal : Value N R → Expression N R
    collection_literal : Expressions N R → Expression N R
    unary : UnaryOperator → Expression N R → Expression N R
    binary : BinaryOperator → Expression N R → Expression N R → Expression N R
    short_circuit : ShortCircuitOperator → Expression N R → Expression N R → Expression N R
    replace : Expression N R → Expression N R → Expression N R → Expression N R

  pub data Expressions (N R : Type 0) : Type 0 where
    no_expressions : Expressions N R
    expression : Expression N R → Expressions N R → Expressions N R

pub data Strategy : Type 0 where
  exhaustive : Strategy
  lazy : Strategy

-- JavaScript's operations on numbers, strings and regular expressions, and the parsers of the
-- primitive value types.
pub record Runtime (N R : Type 0) : Type 0 where
  pub zero : N
  pub one : N
  pub plus : N → N → N
  pub minus : N → N → N
  pub times : N → N → N
  pub divided : N → N → N
  pub remainder : N → N → N
  pub power : N → N → N
  pub negated : N → N
  pub square_root : N → N
  pub floor : N → N
  pub ceil : N → N
  pub round : N → N
  pub is_finite : N → Bool
  pub less : N → N → Bool
  pub less_or_equal : N → N → Bool
  pub same_number : N → N → Bool
  pub includes_number : N → N → Bool
  pub same_object : Value N R → Value N R → Bool
  pub lower_case : String → String
  pub upper_case : String → String
  pub string_length : String → N
  pub test : R → String → Bool
  pub replaced : String → R → String → String
  pub parse_decimal : String → Option N
  pub truncated : N → N
  pub parse_boolean : String → Option Bool

-- `IntegerValuetype.fromString`, on the result of `parseDecimal`
abbrev pub integer_of : {N R : Type 0} → Runtime N R → Option N → Option N
integer_of js none = none
integer_of js (some n) = if js.same_number n (js.truncated n) then some (js.truncated n) else none

abbrev pub parse_integer : {N R : Type 0} → Runtime N R → String → Option N
parse_integer js s = integer_of js (js.parse_decimal s)

pub record EvaluationContext (N R : Type 0) : Type 0 where
  pub variable_values : List (String × Value N R)
  pub value_keyword_value : Option (Value N R)

module _ {N R : Type 0} where
  abbrev pub set_value_for_reference :
      String → Value N R → EvaluationContext N R → EvaluationContext N R
  set_value_for_reference ref_text v c = record c {
    variable_values = insert ref_text v c.variable_values;
  }

  abbrev pub delete_value_for_reference : String → EvaluationContext N R → EvaluationContext N R
  delete_value_for_reference ref_text c = record c {
    variable_values = erase ref_text c.variable_values;
  }

  abbrev pub set_value_for_value_keyword : Value N R → EvaluationContext N R → EvaluationContext N R
  set_value_for_value_keyword v c = record c { value_keyword_value = some v }

  abbrev pub delete_value_for_value_keyword : EvaluationContext N R → EvaluationContext N R
  delete_value_for_value_keyword c = record c { value_keyword_value = none }

  abbrev pub get_value_for_reference : Reference → EvaluationContext N R → Option (Value N R)
  get_value_for_reference unresolved c = none
  get_value_for_reference (definition kind id) c = some (node kind id)
  get_value_for_reference (variable name) c = lookup name c.variable_values
