-- ===== src/Expressions/Strategies.antt =====
-- evaluate-expression.ts under the two strategies of evaluation-strategy.ts.
use jayvee.Base.{
  ◌≡◌, ◌≢◌, refl, sym, ap, ◌∙◌, Bool, true, false, Option, none, some, if◌then◌else◌, inl, inr,
  Bool-cases,
}
use jayvee.Expressions.{
  Outcome, gives, guard_fails, error_thrown, ◌>>=◌, Value, boolean, number, string, regex, node,
  collection, Values, Expression, missing, reference, value_keyword, literal, collection_literal,
  unary, binary, short_circuit, replace, Expressions, no_expressions, expression, UnaryOperator,
  BinaryOperator, ShortCircuitOperator, and_operator, or_operator, exhaustive, lazy, Runtime,
  EvaluationContext,
}
use jayvee.Expressions.Evaluate.{
  evaluate_expression, evaluate_elements, unary_step, binary_step, short_circuit_step, replace_step,
  logical_right, evaluate_logical, can_skip_right_operand, short_circuit_value, defined_element,
  as_collection,
}

module _ {N R : Type 0} where
  -- `lazy_one` gives every value that `full_one` gives.
  abbrev Follows : Outcome (Option (Value N R)) → Outcome (Option (Value N R)) → Type 0
  Follows full_one lazy_one =
      (v : Value N R) → full_one ≡ gives (some v) → lazy_one ≡ gives (some v)

  -- What comes behind an operand gives no value where the operand is undefined.
  abbrev NeedsOperand : (Option (Value N R) → Outcome (Option (Value N R))) → Type 0
  NeedsOperand k = (v : Value N R) → k none ≢ gives (some v)

  >>=-Follows :
      (m m' : Outcome (Option (Value N R)))
      (k k' : Option (Value N R) → Outcome (Option (Value N R)))
      → NeedsOperand k
      → ((w : Value N R) → Follows (k (some w)) (k' (some w)))
      → Follows m m'
      → Follows (m >>= k) (m' >>= k')
  >>=-Follows (gives none) m' k k' needs step follows v h = elim (needs v h) [ ]
  >>=-Follows (gives (some w)) m' k k' needs step follows v h = rw (follows w refl) (step w v h)
  >>=-Follows guard_fails m' k k' needs step follows v h = cc
  >>=-Follows error_thrown m' k k' needs step follows v h = cc

  only_undefined :
      (m : Outcome (Option (Value N R))) (v : Value N R)
      → (m >>= (λ r. gives none)) ≢ gives (some v)
  only_undefined (gives r) v h = cc
  only_undefined guard_fails v h = cc
  only_undefined error_thrown v h = cc

module _ {N R : Type 0} (js : Runtime N R) where
  unary_step-NeedsOperand : (op : UnaryOperator) → NeedsOperand (unary_step js op)
  unfolding unary_step
  unary_step-NeedsOperand op v h = cc

  binary_step-NeedsOperand :
      (op : BinaryOperator) (right : Outcome (Option (Value N R)))
      → NeedsOperand (λ l. binary_step js exhaustive op l right)
  unfolding binary_step
  binary_step-NeedsOperand op right v h = only_undefined right v h

  binary_step-Follows :
      (op : BinaryOperator) (first : Value N R) (right right' : Outcome (Option (Value N R)))
      → Follows right right'
      → Follows
          (binary_step js exhaustive op (some first) right)
          (binary_step js lazy op (some first) right')
  unfolding binary_step
  binary_step-Follows op first right right' follows =
      >>=-Follows right right' _ _ (λ v h. cc) (λ w v h. h) follows

  logical_right-Follows :
      (op : ShortCircuitOperator) (l : Bool) (right right' : Outcome (Option (Value N R)))
      → Follows right right'
      → Follows (logical_right js op l right) (logical_right js op l right')
  logical_right-Follows op l right right' follows =
      >>=-Follows right right' _ _ (λ v h. cc) (λ w v h. h) follows

  logical_value :
      (op : ShortCircuitOperator) (l : Bool) (w v : Value N R)
      → logical_right js op l (gives (some w)) ≡ gives (some v)
      → (b : Bool) × (boolean (evaluate_logical op l b) ≡ v)
  logical_value op l (boolean b) v h = (b, cc)
  logical_value op l (number n) v h = cc
  logical_value op l (string n) v h = cc
  logical_value op l (regex n) v h = cc
  logical_value op l (node n i) v h = cc
  logical_value op l (collection n) v h = cc

  skipped_value :
      (op : ShortCircuitOperator) (l b : Bool)
      → can_skip_right_operand op l ≡ true
      → evaluate_logical op l b ≡ short_circuit_value op
  skipped_value and_operator false b skip = refl
  skipped_value and_operator true b skip = cc
  skipped_value or_operator true b skip = refl
  skipped_value or_operator false b skip = cc

  -- Where the right operand may be skipped, the operator gives the same value with it.
  logical_right-skipped :
      (op : ShortCircuitOperator) (l : Bool) (right : Outcome (Option (Value N R))) (v : Value N R)
      → can_skip_right_operand op l ≡ true
      → logical_right js op l right ≡ gives (some v)
      → boolean (short_circuit_value op) ≡ v
  logical_right-skipped op l (gives none) v skip h = cc
  logical_right-skipped op l (gives (some w)) v skip h =
      let (b, e) = logical_value op l w v h in ap boolean (sym (skipped_value op l b skip)) ∙ e
  logical_right-skipped op l guard_fails v skip h = cc
  logical_right-skipped op l error_thrown v skip h = cc

  logical_step :
      (op : ShortCircuitOperator) (l : Bool) (right right' : Outcome (Option (Value N R)))
      → Follows right right'
      → Follows (logical_right js op l right) (
          if can_skip_right_operand op l
          then gives (some (boolean (short_circuit_value op)))
          else logical_right js op l right')
  logical_step op l right right' follows v h = elim (Bool-cases (can_skip_right_operand op l)) [
    | inl skip ↦ rw skip (ap (λ w. gives (some w)) (logical_right-skipped op l right v skip h))
    | inr needed ↦ rw needed (logical_right-Follows op l right right' follows v h)
  ]

  short_circuit_step-Follows :
      (op : ShortCircuitOperator) (first : Value N R) (right right' : Outcome (Option (Value N R)))
      → Follows right right'
      → Follows
          (short_circuit_step js exhaustive op (some first) right)
          (short_circuit_step js lazy op (some first) right')
  unfolding short_circuit_step
  short_circuit_step-Follows op (boolean l) right right' follows v h =
      logical_step op l right right' follows v h
  short_circuit_step-Follows op (number n) right right' follows v h = cc
  short_circuit_step-Follows op (string n) right right' follows v h = cc
  short_circuit_step-Follows op (regex n) right right' follows v h = cc
  short_circuit_step-Follows op (node n i) right right' follows v h = cc
  short_circuit_step-Follows op (collection n) right right' follows v h = cc

  short_circuit_step-NeedsOperand :
      (op : ShortCircuitOperator) (right : Outcome (Option (Value N R)))
      → NeedsOperand (λ l. short_circuit_step js exhaustive op l right)
  unfolding short_circuit_step
  short_circuit_step-NeedsOperand op right v h = only_undefined right v h

  replace_step-Follows :
      (first : Value N R) (s s' t t' : Outcome (Option (Value N R)))
      → Follows s s'
      → Follows t t'
      → Follows
          (replace_step js exhaustive (some first) s t)
          (replace_step js lazy (some first) s' t')
  unfolding replace_step
  replace_step-Follows first s s' t t' follows_s follows_t =
      >>=-Follows s s' _ _ (λ v h. only_undefined t v h)
        (λ w. >>=-Follows t t' _ _ (λ v h. cc) (λ u v h. h) follows_t) follows_s

  replace_step-NeedsOperand :
      (s t : Outcome (Option (Value N R))) → NeedsOperand (λ f. replace_step js exhaustive f s t)
  unfolding replace_step
  replace_step-NeedsOperand (gives r) t v h = only_undefined t v h
  replace_step-NeedsOperand guard_fails t v h = cc
  replace_step-NeedsOperand error_thrown t v h = cc

  elements_step :
      (m m' : Outcome (Option (Value N R))) (rest rest' : Outcome (Option (Values N R)))
      → Follows m m'
      → ((vs : Values N R) → rest ≡ gives (some vs) → rest' ≡ gives (some vs))
      → (vs : Values N R)
      → (m >>= (λ v. rest >>= (λ ws. gives (defined_element v ws)))) ≡ gives (some vs)
      → (m' >>= (λ v. rest' >>= (λ ws. gives (defined_element v ws)))) ≡ gives (some vs)
  elements_step (gives none) m' (gives ws) rest' first others vs h = cc
  elements_step (gives none) m' guard_fails rest' first others vs h = cc
  elements_step (gives none) m' error_thrown rest' first others vs h = cc
  elements_step (gives (some v)) m' (gives none) rest' first others vs h = cc
  elements_step (gives (some v)) m' (gives (some ws)) rest' first others vs h =
      rw (first v refl, others ws refl) h
  elements_step (gives (some v)) m' guard_fails rest' first others vs h = cc
  elements_step (gives (some v)) m' error_thrown rest' first others vs h = cc
  elements_step guard_fails m' rest rest' first others vs h = cc
  elements_step error_thrown m' rest rest' first others vs h = cc

  collection_step :
      (m m' : Outcome (Option (Values N R)))
      → ((vs : Values N R) → m ≡ gives (some vs) → m' ≡ gives (some vs))
      → Follows (m >>= (λ vs. gives (as_collection vs))) (m' >>= (λ vs. gives (as_collection vs)))
  collection_step (gives none) m' follows v h = cc
  collection_step (gives (some vs)) m' follows v h = rw (follows vs refl) h
  collection_step guard_fails m' follows v h = cc
  collection_step error_thrown m' follows v h = cc

  mutual
    unfolding evaluate_expression

    expression-Follows :
        (c : EvaluationContext N R) (e : Expression N R)
        → Follows (evaluate_expression js exhaustive c e) (evaluate_expression js lazy c e)
    expression-Follows c missing v h = h
    expression-Follows c (reference r) v h = h
    expression-Follows c (value_keyword length_access) v h = h
    expression-Follows c (literal w) v h = h
    expression-Follows c (collection_literal es) v h =
        collection_step _ _ (elements_follow c es) v h
    expression-Follows c (unary op e) v h =
        >>=-Follows _ _ _ _ (unary_step-NeedsOperand op) (λ w u k. k) (expression-Follows c e) v h
    expression-Follows c (binary op left right) v h =
        >>=-Follows _ _ _ _ (binary_step-NeedsOperand op _)
          (λ w. binary_step-Follows op w _ _ (expression-Follows c right))
          (expression-Follows c left) v h
    expression-Follows c (short_circuit op left right) v h =
        >>=-Follows _ _ _ _ (short_circuit_step-NeedsOperand op _)
          (λ w. short_circuit_step-Follows op w _ _ (expression-Follows c right))
          (expression-Follows c left) v h
    expression-Follows c (replace first second third) v h =
        >>=-Follows _ _ _ _ (replace_step-NeedsOperand _ _)
          (λ w.
            replace_step-Follows w _ _ _ _ (expression-Follows c second)
              (expression-Follows c third))
          (expression-Follows c first) v h

    elements_follow :
        (c : EvaluationContext N R) (es : Expressions N R) (vs : Values N R)
        → evaluate_elements js exhaustive c es ≡ gives (some vs)
        → evaluate_elements js lazy c es ≡ gives (some vs)
    elements_follow c no_expressions vs h = h
    elements_follow c (expression e es) vs h =
        elements_step _ _ _ _ (expression-Follows c e) (elements_follow c es) vs h

  -- An expression that evaluates to a value when both operands are always evaluated evaluates to the
  -- same value when the evaluation is lazy.
  pub evaluate_expression-lazy :
      (c : EvaluationContext N R) (e : Expression N R) (v : Value N R)
      → evaluate_expression js exhaustive c e ≡ gives (some v)
      → evaluate_expression js lazy c e ≡ gives (some v)
  evaluate_expression-lazy c e v h = expression-Follows c e v h
