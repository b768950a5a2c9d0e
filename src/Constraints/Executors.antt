-- ===== src/Constraints/Executors.antt =====
-- constraints/executors/*.ts: whether a value satisfies a constraint. The constraint is on top of the
-- stack of the execution context, so that its own properties are read.
use text.Mathlib.Text.{◌==◌}
use jayvee.Base.{
  Bool, false, not, ◌&&◌, ◌||◌, Option, none, some, List, if◌then◌else◌, Result, NoError, ok,
  throws, ◌>>=◌, String,
}
use jayvee.Expressions.{
  Value, boolean, number, string, regex, collection, Values, no_values, value, lazy, Runtime,
  EvaluationContext, set_value_for_value_keyword, delete_value_for_value_keyword,
}
use jayvee.Expressions.Evaluate.{evaluate_expression}
use jayvee.Expressions.Types.{
  boolean_type, text_type, integer_type, decimal_type, regex_type, collection_type,
}
use jayvee.Constraints.{
  Numerals, PropertyBody, ConstraintType, allowlist_constraint, denylist_constraint,
  regex_constraint, length_constraint, range_constraint, Constraint, typed_constraint,
  expression_constraint, thrown_on, get_property_value,
}

module _ {N R : Type 0} where
  -- `list.includes(value)` on a collection of texts
  abbrev pub is_text : String → Value N R → Bool
  is_text s (string t) = t == s
  is_text s _ = false

  abbrev pub includes_text : String → Values N R → Bool
  includes_text s no_values = false
  includes_text s (value v vs) = is_text s v || includes_text s vs

  -- The value of a property as its type says it is; the other cases do not occur.
  abbrev pub collection_value : Value N R → Result NoError (Values N R)
  collection_value (collection vs) = ok vs
  collection_value _ = throws

  abbrev pub number_value : Value N R → Result NoError N
  number_value (number n) = ok n
  number_value _ = throws

  abbrev pub boolean_value : Value N R → Result NoError Bool
  boolean_value (boolean b) = ok b
  boolean_value _ = throws

  abbrev pub regex_value : Value N R → Result NoError R
  regex_value (regex r) = ok r
  regex_value _ = throws

  -- `assert(Boolean.isInternalValueRepresentation(result))`
  abbrev pub boolean_result : Option (Value N R) → Result NoError Bool
  boolean_result none = throws
  boolean_result (some v) = boolean_value v

module _ {N R : Type 0} (js : Runtime N R) (numerals : Numerals N)
    (runtime_parameters : List (String × String)) where
  unfoldable pub allowlist_is_valid :
      PropertyBody N R → EvaluationContext N R → Value N R → Result NoError Bool
  allowlist_is_valid body c (string s) = do
    v ←
        get_property_value js numerals runtime_parameters body c "allowlist"
          (collection_type text_type)
    allowlist ← collection_value v
    ok (includes_text s allowlist)
  allowlist_is_valid body c _ = ok false

  unfoldable pub denylist_is_valid :
      PropertyBody N R → EvaluationContext N R → Value N R → Result NoError Bool
  denylist_is_valid body c (string s) = do
    v ←
        get_property_value js numerals runtime_parameters body c "denylist"
          (collection_type text_type)
    denylist ← collection_value v
    ok (not (includes_text s denylist))
  denylist_is_valid body c _ = ok false

  unfoldable pub regex_is_valid :
      PropertyBody N R → EvaluationContext N R → Value N R → Result NoError Bool
  regex_is_valid body c (string s) = do
    v ← get_property_value js numerals runtime_parameters body c "regex" regex_type
    r ← regex_value v
    ok (js.test r s)
  regex_is_valid body c _ = ok false

  unfoldable pub length_is_valid :
      PropertyBody N R → EvaluationContext N R → Value N R → Result NoError Bool
  length_is_valid body c (string s) = do
    v ← get_property_value js numerals runtime_parameters body c "minLength" integer_type
    w ← get_property_value js numerals runtime_parameters body c "maxLength" integer_type
    min_length ← number_value v
    max_length ← number_value w
    ok (
        js.less_or_equal min_length (js.string_length s)
        && js.less_or_equal (js.string_length s) max_length)
  length_is_valid body c _ = ok false

  -- `RangeConstraintExecutor.isValid`, on the numeric value
  abbrev pub range_holds : N → N → Bool → N → Bool → Bool
  range_holds n lower lower_inclusive upper upper_inclusive =
      (if lower_inclusive then js.less_or_equal lower n else js.less lower n)
      && (if upper_inclusive then js.less_or_equal n upper else js.less n upper)

  unfoldable pub range_is_valid_number :
      PropertyBody N R → EvaluationContext N R → N → Result NoError Bool
  range_is_valid_number body c numeric_value = do
    lower_bound ← get_property_value js numerals runtime_parameters body c "lowerBound" decimal_type
    lower_inclusive ←
        get_property_value js numerals runtime_parameters body c "lowerBoundInclusive" boolean_type
    upper_bound ← get_property_value js numerals runtime_parameters body c "upperBound" decimal_type
    upper_inclusive ←
        get_property_value js numerals runtime_parameters body c "upperBoundInclusive" boolean_type
    lower ← number_value lower_bound
    with_lower ← boolean_value lower_inclusive
    upper ← number_value upper_bound
    with_upper ← boolean_value upper_inclusive
    ok (range_holds numeric_value lower with_lower upper with_upper)

  unfoldable pub range_is_valid :
      PropertyBody N R → EvaluationContext N R → Value N R → Result NoError Bool
  range_is_valid body c (string s) = range_is_valid_number body c (numerals.parse_float s)
  range_is_valid body c (number n) = range_is_valid_number body c n
  range_is_valid body c _ = ok false

  -- The executors that `DefaultConstraintExtension` registers
  unfoldable pub typed_is_valid :
      ConstraintType → PropertyBody N R → EvaluationContext N R → Value N R → Result NoError Bool
  typed_is_valid allowlist_constraint = allowlist_is_valid
  typed_is_valid denylist_constraint = denylist_is_valid
  typed_is_valid regex_constraint = regex_is_valid
  typed_is_valid length_constraint = length_is_valid
  typed_is_valid range_constraint = range_is_valid

  -- `ConstraintExecutor.isValid`, with the evaluation context that it leaves
  unfoldable pub is_valid :
      Constraint N R
      → Value N R
      → EvaluationContext N R
      → Result NoError (Bool × EvaluationContext N R)
  is_valid (typed_constraint type body) v c = do
    fulfilled ← typed_is_valid type body c v
    ok (fulfilled, c)
  is_valid (expression_constraint e) v c = do
    let c' = set_value_for_value_keyword v c
    result ← thrown_on (evaluate_expression js lazy c' e)
    fulfilled ← boolean_result result
    ok (fulfilled, delete_value_for_value_keyword c')
