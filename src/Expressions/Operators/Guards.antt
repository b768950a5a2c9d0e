-- ===== src/Expressions/Operators/Guards.antt =====
-- typeguards.ts, and the guards of in-operator-evaluator.ts. A guard and the assertion on it are one
-- function from a value to what the guard lets pass.
use jayvee.Base.{Bool, true, false, ◌&&◌, Option, none, some, String, if◌then◌else◌}
use jayvee.Expressions.{
  Outcome, gives, guard_fails, error_thrown, Value, boolean, number, string, regex, node,
  collection, Values, no_values, value,
}

-- The parsed value; a text that does not parse is an error that is thrown.
abbrev pub parsed {ℓ} : {A : Type ℓ} → Option A → Outcome A
parsed none = error_thrown
parsed (some a) = gives a

module _ {N R : Type 0} where
  abbrev pub as_boolean : Value N R → Outcome Bool
  as_boolean (boolean b) = gives b
  as_boolean (number n) = guard_fails
  as_boolean (string s) = guard_fails
  as_boolean (regex r) = guard_fails
  as_boolean (node k i) = guard_fails
  as_boolean (collection vs) = guard_fails

  abbrev pub as_number : Value N R → Outcome N
  as_number (boolean b) = guard_fails
  as_number (number n) = gives n
  as_number (string s) = guard_fails
  as_number (regex r) = guard_fails
  as_number (node k i) = guard_fails
  as_number (collection vs) = guard_fails

  abbrev pub as_string : Value N R → Outcome String
  as_string (boolean b) = guard_fails
  as_string (number n) = guard_fails
  as_string (string s) = gives s
  as_string (regex r) = guard_fails
  as_string (node k i) = guard_fails
  as_string (collection vs) = guard_fails

  abbrev pub as_regex : Value N R → Outcome R
  as_regex (boolean b) = guard_fails
  as_regex (number n) = guard_fails
  as_regex (string s) = guard_fails
  as_regex (regex r) = gives r
  as_regex (node k i) = guard_fails
  as_regex (collection vs) = guard_fails

  -- `isLeftOperandMatchingValueRepresentationTypeguard` of the operator `in`
  abbrev pub is_string_or_number : Value N R → Bool
  is_string_or_number (boolean b) = false
  is_string_or_number (number n) = true
  is_string_or_number (string s) = true
  is_string_or_number (regex r) = false
  is_string_or_number (node k i) = false
  is_string_or_number (collection vs) = false

  abbrev pub every_string_or_number : Values N R → Bool
  every_string_or_number no_values = true
  every_string_or_number (value v vs) = is_string_or_number v && every_string_or_number vs

  -- `isRightOperandMatchingValueRepresentationTypeguard`
  abbrev pub as_elements : Value N R → Outcome (Values N R)
  as_elements (boolean b) = guard_fails
  as_elements (number n) = guard_fails
  as_elements (string s) = guard_fails
  as_elements (regex r) = guard_fails
  as_elements (node k i) = guard_fails
  as_elements (collection vs) = if every_string_or_number vs then gives vs else guard_fails
