-- ===== src/Expressions/Inference/Steps.antt =====
-- Operators keep value types declared, and the steps of an evaluation are sound.
use mathlib.Core.Bool.{and-eq-true_iff}
use jayvee.Base.{
  ℕ, ◌≡◌, refl, sym, ◌∙◌, subst, Bool, true, ◌&&◌, Option, none, some, inl, inr, Bool-cases,
}
use jayvee.Expressions.{
  Outcome, gives, guard_fails, error_thrown, ◌>>=◌, Value, Runtime, Strategy, lazy, exhaustive,
  UnaryOperator, not_operator, plus_operator, minus_operator, sqrt_operator, floor_operator,
  ceil_operator, round_operator, lowercase_operator, uppercase_operator, as_decimal_operator,
  as_integer_operator, as_boolean_operator, as_text_operator, BinaryOperator, pow_operator,
  root_operator, multiplication_operator, division_operator, modulo_operator, addition_operator,
  subtraction_operator, less_than_operator, less_equal_operator, greater_than_operator,
  greater_equal_operator, equality_operator, inequality_operator, xor_operator, in_operator,
  matches_operator, ShortCircuitOperator,
}
use jayvee.Expressions.Operators.{evaluate_replace}
use jayvee.Expressions.Evaluate.{
  unary_step, binary_step, short_circuit_step, replace_step, logical_right, can_skip_right_operand,
}
use jayvee.Expressions.Types.{
  ValueType, boolean_type, text_type, decimal_type, regex_type, is_convertible_to, has_shape,
}
use jayvee.Expressions.Types.Computers.{
  compute_unary_type, compute_binary_type, compute_short_circuit_type, compute_replace_type,
  default_binary_type, arithmetic_type, is_integer,
}
use jayvee.Expressions.Types.Declared.{IsDeclared}
use jayvee.Expressions.Types.Membership.{in_type_InOperands}
use jayvee.Expressions.Types.Shapes.{IsSound, if_some, convertible_boolean, on_boolean, either_way}
use jayvee.Expressions.Types.Unary.{
  compute_unary_type-eq, unary_result_type, evaluate_unary-IsSound,
}
use jayvee.Expressions.Types.Binary.{
  equality_result, evaluate_binary-IsSound, evaluate_replace-IsSound,
}

module _ (declared : ℕ → ValueType) where
  pub unary-IsDeclared :
      (op : UnaryOperator) (t u : ValueType)
      → compute_unary_type op t ≡ some u
      → IsDeclared declared t
      → IsDeclared declared u
  unary-IsDeclared op t u e d =
      let (_, same) = if_some _ _ _ (sym (compute_unary_type-eq op t) ∙ e) in
      subst (IsDeclared declared) same (result op)
    where
      result : (o : UnaryOperator) → IsDeclared declared (unary_result_type o t)
      result not_operator = tt
      result plus_operator = d
      result minus_operator = d
      result sqrt_operator = tt
      result floor_operator = tt
      result ceil_operator = tt
      result round_operator = tt
      result lowercase_operator = tt
      result uppercase_operator = tt
      result as_decimal_operator = tt
      result as_integer_operator = tt
      result as_boolean_operator = tt
      result as_text_operator = tt

  default-IsDeclared :
      (x y t t' r u : ValueType)
      → IsDeclared declared r
      → default_binary_type x y t t' r ≡ some u
      → IsDeclared declared u
  default-IsDeclared x y t t' r u d e = subst (IsDeclared declared) (if_some _ _ _ e).1 d

  arithmetic-IsDeclared : (t t' : ValueType) → IsDeclared declared (arithmetic_type t t')
  arithmetic-IsDeclared t t' = elim (Bool-cases (is_integer t && is_integer t')) [
    | inl both ↦ rw both tt
    | inr other ↦ rw other tt
  ]

  boolean-IsDeclared : (u : ValueType) → boolean_type ≡ u → IsDeclared declared u
  boolean-IsDeclared u e = subst (IsDeclared declared) e tt

  pub binary-IsDeclared :
      (op : BinaryOperator) (t t' u : ValueType)
      → compute_binary_type op t t' ≡ some u
      → IsDeclared declared u
  unfolding compute_binary_type
  binary-IsDeclared pow_operator t t' u e =
      default-IsDeclared decimal_type decimal_type t t' decimal_type u tt e
  binary-IsDeclared root_operator t t' u e =
      default-IsDeclared decimal_type decimal_type t t' decimal_type u tt e
  binary-IsDeclared multiplication_operator t t' u e =
      default-IsDeclared decimal_type decimal_type t t' (arithmetic_type t t') u
        (arithmetic-IsDeclared t t') e
  binary-IsDeclared division_operator t t' u e =
      default-IsDeclared decimal_type decimal_type t t' decimal_type u tt e
  binary-IsDeclared modulo_operator t t' u e =
      default-IsDeclared decimal_type decimal_type t t' decimal_type u tt e
  binary-IsDeclared addition_operator t t' u e =
      default-IsDeclared decimal_type decimal_type t t' (arithmetic_type t t') u
        (arithmetic-IsDeclared t t') e
  binary-IsDeclared subtraction_operator t t' u e =
      default-IsDeclared decimal_type decimal_type t t' (arithmetic_type t t') u
        (arithmetic-IsDeclared t t') e
  binary-IsDeclared less_than_operator t t' u e =
      default-IsDeclared decimal_type decimal_type t t' boolean_type u tt e
  binary-IsDeclared less_equal_operator t t' u e =
      default-IsDeclared decimal_type decimal_type t t' boolean_type u tt e
  binary-IsDeclared greater_than_operator t t' u e =
      default-IsDeclared decimal_type decimal_type t t' boolean_type u tt e
  binary-IsDeclared greater_equal_operator t t' u e =
      default-IsDeclared decimal_type decimal_type t t' boolean_type u tt e
  binary-IsDeclared equality_operator t t' u e = boolean-IsDeclared u (equality_result t t' u e)
  binary-IsDeclared inequality_operator t t' u e = boolean-IsDeclared u (equality_result t t' u e)
  binary-IsDeclared xor_operator t t' u e =
      default-IsDeclared boolean_type boolean_type t t' boolean_type u tt e
  binary-IsDeclared matches_operator t t' u e =
      default-IsDeclared text_type regex_type t t' boolean_type u tt e
  binary-IsDeclared in_operator t t' u e = boolean-IsDeclared u (in_type_InOperands t t' u e).result

  pub short_circuit-IsDeclared :
      (t t' u : ValueType) → compute_short_circuit_type t t' ≡ some u → IsDeclared declared u
  unfolding compute_short_circuit_type
  short_circuit-IsDeclared t t' u e =
      default-IsDeclared boolean_type boolean_type t t' boolean_type u tt e

  pub replace-IsDeclared :
      (t t' t'' u : ValueType) → compute_replace_type t t' t'' ≡ some u → IsDeclared declared u
  unfolding compute_replace_type
  replace-IsDeclared t t' t'' u e = subst (IsDeclared declared) (if_some _ _ _ e).1 tt

module _ {N R : Type 0} where
  -- A sound operand and a step that is sound on its values
  pub after_operand :
      (t u : ValueType) (m : Outcome (Option (Value N R)))
      (f : Option (Value N R) → Outcome (Option (Value N R)))
      → IsSound t m
      → IsSound u (f none)
      → ((v : Value N R) → has_shape t v ≡ true → IsSound u (f (some v)))
      → IsSound u (m >>= f)
  after_operand t u (gives none) f h n s = n
  after_operand t u (gives (some v)) f h n s = s v h
  after_operand t u guard_fails f h n s = h
  after_operand t u error_thrown f h n s = tt

  discarded :
      (t u : ValueType) (m : Outcome (Option (Value N R)))
      → IsSound t m
      → IsSound {N = N} {R = R} u (m >>= (λ r. gives none))
  discarded t u m h = after_operand t u m (λ r. gives none) h tt (λ v s. tt)

module _ {N R : Type 0} (js : Runtime N R) where
  pub unary_step-IsSound :
      (op : UnaryOperator) (t u : ValueType) (m : Outcome (Option (Value N R)))
      → compute_unary_type op t ≡ some u
      → IsSound t m
      → IsSound u (m >>= unary_step js op)
  unfolding unary_step
  unary_step-IsSound op t u m e h =
      after_operand t u m (unary_step js op) h tt (λ v s. evaluate_unary-IsSound js op t u v e s)

  binary_operand-IsSound :
      (strategy : Strategy) (op : BinaryOperator) (t t' u : ValueType) (v : Value N R)
      (second : Outcome (Option (Value N R)))
      → compute_binary_type op t t' ≡ some u
      → has_shape t v ≡ true
      → IsSound t' second
      → IsSound u (binary_step js strategy op (some v) second)
  unfolding binary_step
  binary_operand-IsSound lazy op t t' u v second e s h =
      after_operand t' u second _ h tt (λ w s'. evaluate_binary-IsSound js op t t' u v w e s s')
  binary_operand-IsSound exhaustive op t t' u v second e s h =
      after_operand t' u second _ h tt (λ w s'. evaluate_binary-IsSound js op t t' u v w e s s')

  pub binary_step-IsSound :
      (strategy : Strategy) (op : BinaryOperator) (t t' u : ValueType)
      (first second : Outcome (Option (Value N R)))
      → compute_binary_type op t t' ≡ some u
      → IsSound t first
      → IsSound t' second
      → IsSound u (first >>= (λ l. binary_step js strategy op l second))
  unfolding binary_step
  binary_step-IsSound strategy op t t' u first second e h h' =
      after_operand t u first _ h (undefined strategy)
        (λ v s. binary_operand-IsSound strategy op t t' u v second e s h')
    where
      undefined : (s : Strategy) → IsSound u (binary_step js s op none second)
      undefined lazy = tt
      undefined exhaustive = discarded t' u second h'

  logical_right-IsSound :
      (op : ShortCircuitOperator) (t' : ValueType) (l : Bool)
      (second : Outcome (Option (Value N R)))
      → is_convertible_to t' boolean_type ≡ true
      → IsSound t' second
      → IsSound boolean_type (logical_right js op l second)
  unfolding has_shape
  logical_right-IsSound op t' l second c h =
      after_operand t' boolean_type second _ h tt
        (λ w s. on_boolean boolean_type w _ (convertible_boolean t' w c s) (λ b. refl))

  short_circuit_operand-IsSound :
      (strategy : Strategy) (op : ShortCircuitOperator) (t t' : ValueType) (v : Value N R)
      (second : Outcome (Option (Value N R)))
      → is_convertible_to t boolean_type ≡ true
      → is_convertible_to t' boolean_type ≡ true
      → has_shape t v ≡ true
      → IsSound t' second
      → IsSound boolean_type (short_circuit_step js strategy op (some v) second)
  unfolding short_circuit_step has_shape
  short_circuit_operand-IsSound lazy op t t' v second c c' s h =
      on_boolean boolean_type v _ (convertible_boolean t v c s) (λ l.
        either_way boolean_type (can_skip_right_operand op l) _ _ refl
          (logical_right-IsSound op t' l second c' h))
  short_circuit_operand-IsSound exhaustive op t t' v second c c' s h =
      on_boolean boolean_type v _ (convertible_boolean t v c s)
        (λ l. logical_right-IsSound op t' l second c' h)

  pub short_circuit_step-IsSound :
      (strategy : Strategy) (op : ShortCircuitOperator) (t t' u : ValueType)
      (first second : Outcome (Option (Value N R)))
      → compute_short_circuit_type t t' ≡ some u
      → IsSound t first
      → IsSound t' second
      → IsSound u (first >>= (λ l. short_circuit_step js strategy op l second))
  unfolding compute_short_circuit_type short_circuit_step
  short_circuit_step-IsSound strategy op t t' u first second e h h' =
      let (c, same) = if_some _ _ _ e in
      let (l, r) = (and-eq-true_iff _ _).0 c in
      subst (λ x. IsSound x (first >>= (λ l. short_circuit_step js strategy op l second))) same
        (after_operand t boolean_type first _ h (undefined strategy)
          (λ v s. short_circuit_operand-IsSound strategy op t t' v second l r s h'))
    where
      undefined : (s : Strategy) → IsSound boolean_type (short_circuit_step js s op none second)
      undefined lazy = tt
      undefined exhaustive = discarded t' boolean_type second h'

  replace_operand-IsSound :
      (strategy : Strategy) (t t' t'' u : ValueType) (v : Value N R)
      (second third : Outcome (Option (Value N R)))
      → compute_replace_type t t' t'' ≡ some u
      → has_shape t v ≡ true
      → IsSound t' second
      → IsSound t'' third
      → IsSound u (replace_step js strategy (some v) second third)
  unfolding replace_step
  replace_operand-IsSound strategy t t' t'' u v second third e s h' h'' = whole strategy
    where
      evaluated : IsSound u (
          second >>= (λ x. third >>= (λ y. elim x [
            | none ↦ gives none
            | some w ↦ elim y [ none ↦ gives none | some z ↦ evaluate_replace js v w z ]
          ])))
      evaluated = after_operand t' u second _ h' (discarded t'' u third h'') (λ w s'.
          after_operand t'' u third _ h'' tt
            (λ z s''. evaluate_replace-IsSound js t t' t'' u v w z e s s' s''))

      whole : (x : Strategy) → IsSound u (replace_step js x (some v) second third)
      whole lazy = evaluated
      whole exhaustive = evaluated

  pub replace_step-IsSound :
      (strategy : Strategy) (t t' t'' u : ValueType)
      (first second third : Outcome (Option (Value N R)))
      → compute_replace_type t t' t'' ≡ some u
      → IsSound t first
      → IsSound t' second
      → IsSound t'' third
      → IsSound u (first >>= (λ f. replace_step js strategy f second third))
  unfolding replace_step
  replace_step-IsSound strategy t t' t'' u first second third e h h' h'' =
      after_operand t u first _ h (undefined strategy)
        (λ v s. replace_operand-IsSound strategy t t' t'' u v second third e s h' h'')
    where
      undefined : (s : Strategy) → IsSound u (replace_step js s none second third)
      undefined lazy = tt
      undefined exhaustive =
          after_operand t' u second _ h' (discarded t'' u third h'')
            (λ w s. discarded t'' u third h'')
