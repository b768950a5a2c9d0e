-- ===== src/Expressions/Operators.antt =====
-- evaluators/*.ts: what each operator does with the values of its operands.
mod Guards
pub use Guards.*
use text.Mathlib.Text.{◌==◌}
use jayvee.Base.{Bool, true, false, not, ◌&&◌, ◌||◌, Option, none, some, String, if◌then◌else◌}
use jayvee.Expressions.{
  Outcome, gives, guard_fails, error_thrown, ◌>>=◌, Value, boolean, number, string, regex, node,
  collection, Values, no_values, value, UnaryOperator, not_operator, plus_operator, minus_operator,
  sqrt_operator, floor_operator, ceil_operator, round_operator, lowercase_operator,
  uppercase_operator, as_decimal_operator, as_integer_operator, as_boolean_operator,
  as_text_operator, BinaryOperator, pow_operator, root_operator, multiplication_operator,
  division_operator, modulo_operator, addition_operator, subtraction_operator, less_than_operator,
  less_equal_operator, greater_than_operator, greater_equal_operator, equality_operator,
  inequality_operator, xor_operator, in_operator, matches_operator, Runtime, parse_integer,
}

module _ {N R : Type 0} (js : Runtime N R) where
  -- `===`: primitives by value, others as `same_object` says
  abbrev pub strictly_equal : Value N R → Value N R → Bool
  strictly_equal (boolean a) (boolean b) = (a && b) || (not a && not b)
  strictly_equal (number a) (number b) = js.same_number a b
  strictly_equal (string a) (string b) = a == b
  strictly_equal v w = js.same_object v w

  -- `right.includes(left)`, on strings and numbers
  abbrev pub includes : Values N R → Value N R → Bool
  includes no_values v = false
  includes (value (number a) vs) (number b) = js.includes_number a b || includes vs (number b)
  includes (value (string a) vs) (string b) = (a == b) || includes vs (string b)
  includes (value w vs) v = includes vs v

  -- A finite number, or undefined
  abbrev pub finite_number : N → Outcome (Option (Value N R))
  finite_number n = if js.is_finite n then gives (some (number n)) else gives none

  -- The unary operators, each with the guard of its operand and its `doEvaluate`
  abbrev pub not_evaluator : Value N R → Outcome (Option (Value N R))
  not_evaluator v = do b ← as_boolean v; gives (some (boolean (not b)))

  abbrev pub plus_evaluator : Value N R → Outcome (Option (Value N R))
  plus_evaluator v = do n ← as_number v; gives (some (number n))

  abbrev pub minus_evaluator : Value N R → Outcome (Option (Value N R))
  minus_evaluator v = do n ← as_number v; gives (some (number (js.negated n)))

  abbrev pub sqrt_evaluator : Value N R → Outcome (Option (Value N R))
  sqrt_evaluator v = do
    n ← as_number v
    if js.is_finite (js.square_root n)
        then gives (some (number (js.square_root n)))
        else if js.less n js.zero
        then gives none
        else error_thrown

  abbrev pub floor_evaluator : Value N R → Outcome (Option (Value N R))
  floor_evaluator v = do n ← as_number v; gives (some (number (js.floor n)))

  abbrev pub ceil_evaluator : Value N R → Outcome (Option (Value N R))
  ceil_evaluator v = do n ← as_number v; gives (some (number (js.ceil n)))

  abbrev pub round_evaluator : Value N R → Outcome (Option (Value N R))
  round_evaluator v = do n ← as_number v; gives (some (number (js.round n)))

  abbrev pub lowercase_evaluator : Value N R → Outcome (Option (Value N R))
  lowercase_evaluator v = do s ← as_string v; gives (some (string (js.lower_case s)))

  abbrev pub uppercase_evaluator : Value N R → Outcome (Option (Value N R))
  uppercase_evaluator v = do s ← as_string v; gives (some (string (js.upper_case s)))

  abbrev pub as_decimal_evaluator : Value N R → Outcome (Option (Value N R))
  as_decimal_evaluator v = do
    s ← as_string v
    n ← parsed (js.parse_decimal s)
    gives (some (number n))

  abbrev pub as_integer_evaluator : Value N R → Outcome (Option (Value N R))
  as_integer_evaluator v = do
    s ← as_string v
    n ← parsed (parse_integer js s)
    gives (some (number n))

  abbrev pub as_boolean_evaluator : Value N R → Outcome (Option (Value N R))
  as_boolean_evaluator v = do
    s ← as_string v
    b ← parsed (js.parse_boolean s)
    gives (some (boolean b))

  abbrev pub as_text_evaluator : Value N R → Outcome (Option (Value N R))
  as_text_evaluator v = do s ← as_string v; gives (some (string s))

  -- The unary evaluators of the registry
  unfoldable pub evaluate_unary : UnaryOperator → Value N R → Outcome (Option (Value N R))
  evaluate_unary not_operator v = not_evaluator v
  evaluate_unary plus_operator v = plus_evaluator v
  evaluate_unary minus_operator v = minus_evaluator v
  evaluate_unary sqrt_operator v = sqrt_evaluator v
  evaluate_unary floor_operator v = floor_evaluator v
  evaluate_unary ceil_operator v = ceil_evaluator v
  evaluate_unary round_operator v = round_evaluator v
  evaluate_unary lowercase_operator v = lowercase_evaluator v
  evaluate_unary uppercase_operator v = uppercase_evaluator v
  evaluate_unary as_decimal_operator v = as_decimal_evaluator v
  evaluate_unary as_integer_operator v = as_integer_evaluator v
  evaluate_unary as_boolean_operator v = as_boolean_evaluator v
  evaluate_unary as_text_operator v = as_text_evaluator v

  -- An operator on two numbers: the guards of the left and of the right operand
  abbrev pub on_numbers :
      Value N R → Value N R → (N → N → Outcome (Option (Value N R))) → Outcome (Option (Value N R))
  on_numbers left right f = do l ← as_number left; r ← as_number right; f l r

  -- The binary operators, each with the guards of its operands and its `doEvaluate`
  abbrev pub pow_evaluator : Value N R → Value N R → Outcome (Option (Value N R))
  pow_evaluator left right = on_numbers left right (λ l r. finite_number (js.power l r))

  abbrev pub root_evaluator : Value N R → Value N R → Outcome (Option (Value N R))
  root_evaluator left right =
      on_numbers left right (λ l r. finite_number (js.power l (js.divided js.one r)))

  abbrev pub multiplication_evaluator : Value N R → Value N R → Outcome (Option (Value N R))
  multiplication_evaluator left right =
      on_numbers left right (λ l r. gives (some (number (js.times l r))))

  abbrev pub division_evaluator : Value N R → Value N R → Outcome (Option (Value N R))
  division_evaluator left right = on_numbers left right (λ l r.
      if js.is_finite (js.divided l r)
      then gives (some (number (js.divided l r)))
      else (if js.same_number r js.zero then gives none else error_thrown))

  abbrev pub modulo_evaluator : Value N R → Value N R → Outcome (Option (Value N R))
  modulo_evaluator left right = on_numbers left right (λ l r. finite_number (js.remainder l r))

  abbrev pub addition_evaluator : Value N R → Value N R → Outcome (Option (Value N R))
  addition_evaluator left right = on_numbers left right (λ l r. gives (some (number (js.plus l r))))

  abbrev pub subtraction_evaluator : Value N R → Value N R → Outcome (Option (Value N R))
  subtraction_evaluator left right =
      on_numbers left right (λ l r. gives (some (number (js.minus l r))))

  abbrev pub less_than_evaluator : Value N R → Value N R → Outcome (Option (Value N R))
  less_than_evaluator left right =
      on_numbers left right (λ l r. gives (some (boolean (js.less l r))))

  abbrev pub less_equal_evaluator : Value N R → Value N R → Outcome (Option (Value N R))
  less_equal_evaluator left right =
      on_numbers left right (λ l r. gives (some (boolean (js.less_or_equal l r))))

  abbrev pub greater_than_evaluator : Value N R → Value N R → Outcome (Option (Value N R))
  greater_than_evaluator left right =
      on_numbers left right (λ l r. gives (some (boolean (js.less r l))))

  abbrev pub greater_equal_evaluator : Value N R → Value N R → Outcome (Option (Value N R))
  greater_equal_evaluator left right =
      on_numbers left right (λ l r. gives (some (boolean (js.less_or_equal r l))))

  abbrev pub equality_evaluator : Value N R → Value N R → Outcome (Option (Value N R))
  equality_evaluator left right = gives (some (boolean (strictly_equal left right)))

  abbrev pub inequality_evaluator : Value N R → Value N R → Outcome (Option (Value N R))
  inequality_evaluator left right = gives (some (boolean (not (strictly_equal left right))))

  abbrev pub xor_evaluator : Value N R → Value N R → Outcome (Option (Value N R))
  xor_evaluator left right = do
    l ← as_boolean left
    r ← as_boolean right
    gives (some (boolean ((l && not r) || (not l && r))))

  abbrev pub in_evaluator : Value N R → Value N R → Outcome (Option (Value N R))
  in_evaluator left right =
      if is_string_or_number left
      then (do vs ← as_elements right; gives (some (boolean (includes vs left))))
      else guard_fails

  abbrev pub matches_evaluator : Value N R → Value N R → Outcome (Option (Value N R))
  matches_evaluator left right = do
    s ← as_string left
    r ← as_regex right
    gives (some (boolean (js.test r s)))

  -- The binary evaluators of the registry, without the short-circuit ones
  unfoldable pub evaluate_binary :
      BinaryOperator → Value N R → Value N R → Outcome (Option (Value N R))
  evaluate_binary pow_operator left right = pow_evaluator left right
  evaluate_binary root_operator left right = root_evaluator left right
  evaluate_binary multiplication_operator left right = multiplication_evaluator left right
  evaluate_binary division_operator left right = division_evaluator left right
  evaluate_binary modulo_operator left right = modulo_evaluator left right
  evaluate_binary addition_operator left right = addition_evaluator left right
  evaluate_binary subtraction_operator left right = subtraction_evaluator left right
  evaluate_binary less_than_operator left right = less_than_evaluator left right
  evaluate_binary less_equal_operator left right = less_equal_evaluator left right
  evaluate_binary greater_than_operator left right = greater_than_evaluator left right
  evaluate_binary greater_equal_operator left right = greater_equal_evaluator left right
  evaluate_binary equality_operator left right = equality_evaluator left right
  evaluate_binary inequality_operator left right = inequality_evaluator left right
  evaluate_binary xor_operator left right = xor_evaluator left right
  evaluate_binary in_operator left right = in_evaluator left right
  evaluate_binary matches_operator left right = matches_evaluator left right

  -- `ReplaceOperatorEvaluator`
  unfoldable pub evaluate_replace : Value N R → Value N R → Value N R → Outcome (Option (Value N R))
  evaluate_replace first second third = do
    s ← as_string first
    r ← as_regex second
    t ← as_string third
    gives (some (string (js.replaced s r t)))
