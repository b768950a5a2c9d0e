-- ===== src/Expressions/Evaluate.antt =====
-- evaluate-expression.ts, operator-evaluator.ts and evaluation-context.ts: the evaluation of an
-- expression, to a value or to undefined (`none`).
use jayvee.Base.{Bool, true, false, not, ◌&&◌, ◌||◌, Option, none, some, if◌then◌else◌}
use jayvee.Expressions.{
  Outcome, gives, ◌>>=◌, Value, boolean, number, collection, Values, no_values, value, Expression,
  missing, reference, value_keyword, literal, collection_literal, unary, binary, short_circuit,
  replace, Expressions, no_expressions, expression, UnaryOperator, BinaryOperator,
  ShortCircuitOperator, and_operator, or_operator, Strategy, exhaustive, lazy, Runtime,
  EvaluationContext, get_value_for_reference,
}
use jayvee.Expressions.Operators.{
  as_string, as_boolean, evaluate_unary, evaluate_binary, evaluate_replace,
}

abbrev pub can_skip_right_operand : ShortCircuitOperator → Bool → Bool
can_skip_right_operand and_operator left = not left
can_skip_right_operand or_operator left = left

abbrev pub short_circuit_value : ShortCircuitOperator → Bool
short_circuit_value and_operator = false
short_circuit_value or_operator = true

abbrev pub evaluate_logical : ShortCircuitOperator → Bool → Bool → Bool
evaluate_logical and_operator left right = left && right
evaluate_logical or_operator left right = left || right

module _ {N R : Type 0} where
  -- `isEveryValueDefined`, on an element and what comes behind it
  abbrev pub defined_element : Option (Value N R) → Option (Values N R) → Option (Values N R)
  defined_element none vs = none
  defined_element (some v) none = none
  defined_element (some v) (some vs) = some (value v vs)

  abbrev pub as_collection : Option (Values N R) → Option (Value N R)
  as_collection none = none
  as_collection (some vs) = some (collection vs)

module _ {N R : Type 0} (js : Runtime N R) where
  -- `getValueForValueKeyword`, with the flag `lengthAccess`
  unfoldable pub get_value_for_value_keyword :
      Bool → EvaluationContext N R → Outcome (Option (Value N R))
  get_value_for_value_keyword length_access c = elim c.value_keyword_value [
    | none ↦ gives none
    | some v ↦
        if length_access
        then (do s ← as_string v; gives (some (number (js.string_length s))))
        else gives (some v)
  ]

  -- `DefaultUnaryOperatorEvaluator.evaluate`, behind the evaluation of the operand
  unfoldable pub unary_step : UnaryOperator → Option (Value N R) → Outcome (Option (Value N R))
  unary_step op none = gives none
  unary_step op (some v) = evaluate_unary js op v

  -- `DefaultBinaryOperatorEvaluator.evaluate`, behind the evaluation of the left operand; the last
  -- argument is the evaluation of the right one, used where the code evaluates it.
  unfoldable pub binary_step :
      Strategy
      → BinaryOperator
      → Option (Value N R)
      → Outcome (Option (Value N R))
      → Outcome (Option (Value N R))
  binary_step lazy op none right = gives none
  binary_step exhaustive op none right = do r ← right; gives none
  binary_step strategy op (some l) right = do
    r ← right
    elim r [ none ↦ gives none | some v ↦ evaluate_binary js op l v ]

  -- The end of `BooleanShortCircuitOperatorEvaluator.evaluate`, on a left operand that is a Boolean
  abbrev pub logical_right :
      ShortCircuitOperator → Bool → Outcome (Option (Value N R)) → Outcome (Option (Value N R))
  logical_right op l right = do
    r ← right
    elim r [
      | none ↦ gives none
      | some v ↦ as_boolean v >>= (λ b. gives (some (boolean (evaluate_logical op l b))))
    ]

  -- `BooleanShortCircuitOperatorEvaluator.evaluate`, behind the evaluation of the left operand
  unfoldable pub short_circuit_step :
      Strategy
      → ShortCircuitOperator
      → Option (Value N R)
      → Outcome (Option (Value N R))
      → Outcome (Option (Value N R))
  short_circuit_step lazy op none right = gives none
  short_circuit_step exhaustive op none right = do r ← right; gives none
  short_circuit_step lazy op (some v) right = do
    l ← as_boolean v
    if can_skip_right_operand op l
        then gives (some (boolean (short_circuit_value op)))
        else logical_right op l right
  short_circuit_step exhaustive op (some v) right = do l ← as_boolean v; logical_right op l right

  -- `DefaultTernaryOperatorEvaluator.evaluate`, behind the evaluation of the first operand; the other
  -- two are evaluated whatever the strategy is.
  unfoldable pub replace_step :
      Strategy
      → Option (Value N R)
      → Outcome (Option (Value N R))
      → Outcome (Option (Value N R))
      → Outcome (Option (Value N R))
  replace_step lazy none second third = gives none
  replace_step exhaustive none second third = do s ← second; t ← third; gives none
  replace_step strategy (some first) second third = do
    s ← second
    t ← third
    elim s [
      | none ↦ gives none
      | some v ↦ elim t [ none ↦ gives none | some w ↦ evaluate_replace js first v w ]
    ]

  unfoldable mutual
    -- `evaluateExpression`; `evaluate_elements` is the `map` of `evaluateValueLiteral`.
    pub evaluate_expression :
        Strategy → EvaluationContext N R → Expression N R → Outcome (Option (Value N R))
    evaluate_expression strategy c missing = gives none
    evaluate_expression strategy c (reference r) = gives (get_value_for_reference r c)
    evaluate_expression strategy c (value_keyword length_access) =
        get_value_for_value_keyword length_access c
    evaluate_expression strategy c (literal v) = gives (some v)
    evaluate_expression strategy c (collection_literal es) =
        evaluate_elements strategy c es >>= (λ vs. gives (as_collection vs))
    evaluate_expression strategy c (unary op e) = evaluate_expression strategy c e >>= unary_step op
    evaluate_expression strategy c (binary op left right) =
        let second = evaluate_expression strategy c right in
        evaluate_expression strategy c left >>= (λ l. binary_step strategy op l second)
    evaluate_expression strategy c (short_circuit op left right) =
        let second = evaluate_expression strategy c right in
        evaluate_expression strategy c left >>= (λ l. short_circuit_step strategy op l second)
    evaluate_expression strategy c (replace first second third) =
        let s = evaluate_expression strategy c second in
        let t = evaluate_expression strategy c third in
        evaluate_expression strategy c first >>= (λ f. replace_step strategy f s t)

    pub evaluate_elements :
        Strategy → EvaluationContext N R → Expressions N R → Outcome (Option (Values N R))
    evaluate_elements strategy c no_expressions = gives (some no_values)
    evaluate_elements strategy c (expression e es) =
        let rest = evaluate_elements strategy c es in
        evaluate_expression strategy c e >>= (λ v. rest >>= (λ vs. gives (defined_element v vs)))
