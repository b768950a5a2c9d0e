-- ===== src/Expressions/Types/Unary.antt =====
-- The type computers of the unary operators against their evaluators: an operand of an operator that
-- has a type passes its guard, and the value has the shape of that type.
use jayvee.Base.{◌≡◌, refl, sym, ◌∙◌, subst, true, none, some, if◌then◌else◌}
use jayvee.Expressions.{
  Value, number, Runtime, parse_integer, UnaryOperator, not_operator, plus_operator, minus_operator,
  sqrt_operator, floor_operator, ceil_operator, round_operator, lowercase_operator,
  uppercase_operator, as_decimal_operator, as_integer_operator, as_boolean_operator,
  as_text_operator,
}
use jayvee.Expressions.Operators.{evaluate_unary}
use jayvee.Expressions.Types.{
  ValueType, boolean_type, text_type, integer_type, decimal_type, is_convertible_to, has_shape,
}
use jayvee.Expressions.Types.Computers.{compute_unary_type}
use jayvee.Expressions.Types.Shapes.{
  IsSound, if_some, convertible_number, convertible_text, convertible_boolean, numeric_shape,
  on_number, on_string, on_boolean, on_parsed, either_way,
}

-- What the type computer of a unary operator expects and gives.
abbrev expected_operand_type : UnaryOperator → ValueType
expected_operand_type not_operator = boolean_type
expected_operand_type plus_operator = decimal_type
expected_operand_type minus_operator = decimal_type
expected_operand_type sqrt_operator = decimal_type
expected_operand_type floor_operator = decimal_type
expected_operand_type ceil_operator = decimal_type
expected_operand_type round_operator = decimal_type
expected_operand_type lowercase_operator = text_type
expected_operand_type uppercase_operator = text_type
expected_operand_type as_decimal_operator = text_type
expected_operand_type as_integer_operator = text_type
expected_operand_type as_boolean_operator = text_type
expected_operand_type as_text_operator = text_type

abbrev pub unary_result_type : UnaryOperator → ValueType → ValueType
unary_result_type not_operator t = boolean_type
unary_result_type plus_operator t = t
unary_result_type minus_operator t = t
unary_result_type sqrt_operator t = decimal_type
unary_result_type floor_operator t = integer_type
unary_result_type ceil_operator t = integer_type
unary_result_type round_operator t = integer_type
unary_result_type lowercase_operator t = text_type
unary_result_type uppercase_operator t = text_type
unary_result_type as_decimal_operator t = decimal_type
unary_result_type as_integer_operator t = integer_type
unary_result_type as_boolean_operator t = boolean_type
unary_result_type as_text_operator t = text_type

pub compute_unary_type-eq :
    (op : UnaryOperator) (t : ValueType)
    → compute_unary_type op t ≡ (
        if is_convertible_to t (expected_operand_type op)
        then some (unary_result_type op t)
        else none)
unfolding compute_unary_type
compute_unary_type-eq not_operator t = refl
compute_unary_type-eq plus_operator t = refl
compute_unary_type-eq minus_operator t = refl
compute_unary_type-eq sqrt_operator t = refl
compute_unary_type-eq floor_operator t = refl
compute_unary_type-eq ceil_operator t = refl
compute_unary_type-eq round_operator t = refl
compute_unary_type-eq lowercase_operator t = refl
compute_unary_type-eq uppercase_operator t = refl
compute_unary_type-eq as_decimal_operator t = refl
compute_unary_type-eq as_integer_operator t = refl
compute_unary_type-eq as_boolean_operator t = refl
compute_unary_type-eq as_text_operator t = refl

module _ {N R : Type 0} (js : Runtime N R) where
  unary-IsSound :
      (op : UnaryOperator) (t : ValueType) (v : Value N R)
      → is_convertible_to t (expected_operand_type op) ≡ true
      → has_shape t v ≡ true
      → IsSound (unary_result_type op t) (evaluate_unary js op v)
  unfolding evaluate_unary has_shape
  unary-IsSound not_operator t v c h =
      on_boolean boolean_type v _ (convertible_boolean t v c h) (λ b. refl)
  unary-IsSound plus_operator t v c h =
      on_number t v _ (convertible_number t v c h) (λ n. numeric_shape {R = R} t (number n) c refl)
  unary-IsSound minus_operator t v c h =
      on_number t v _ (convertible_number t v c h)
        (λ n. numeric_shape {R = R} t (number (js.negated n)) c refl)
  unary-IsSound sqrt_operator t v c h =
      on_number decimal_type v _ (convertible_number t v c h) (λ n.
        either_way decimal_type (js.is_finite (js.square_root n)) _ _ refl
          (either_way decimal_type (js.less n js.zero) _ _ tt tt))
  unary-IsSound floor_operator t v c h =
      on_number integer_type v _ (convertible_number t v c h) (λ n. refl)
  unary-IsSound ceil_operator t v c h =
      on_number integer_type v _ (convertible_number t v c h) (λ n. refl)
  unary-IsSound round_operator t v c h =
      on_number integer_type v _ (convertible_number t v c h) (λ n. refl)
  unary-IsSound lowercase_operator t v c h =
      on_string text_type v _ (convertible_text t v c h) (λ s. refl)
  unary-IsSound uppercase_operator t v c h =
      on_string text_type v _ (convertible_text t v c h) (λ s. refl)
  unary-IsSound as_decimal_operator t v c h =
      on_string decimal_type v _ (convertible_text t v c h)
        (λ s. on_parsed decimal_type (js.parse_decimal s) _ (λ a. refl))
  unary-IsSound as_integer_operator t v c h =
      on_string integer_type v _ (convertible_text t v c h)
        (λ s. on_parsed integer_type (parse_integer js s) _ (λ a. refl))
  unary-IsSound as_boolean_operator t v c h =
      on_string boolean_type v _ (convertible_text t v c h)
        (λ s. on_parsed boolean_type (js.parse_boolean s) _ (λ a. refl))
  unary-IsSound as_text_operator t v c h =
      on_string text_type v _ (convertible_text t v c h) (λ s. refl)

  -- Where the type computer of a unary operator gives a type for the type of the operand, the operator
  -- on a value of the operand's shape fails no guard, and its value has the shape of that type.
  pub evaluate_unary-IsSound :
      (op : UnaryOperator) (t u : ValueType) (v : Value N R)
      → compute_unary_type op t ≡ some u
      → has_shape t v ≡ true
      → IsSound u (evaluate_unary js op v)
  evaluate_unary-IsSound op t u v e h =
      let (c, same) = if_some _ _ _ (sym (compute_unary_type-eq op t) ∙ e) in
      subst (λ x. IsSound x (evaluate_unary js op v)) same (unary-IsSound op t v c h)
