-- ===== src/Expressions/Types/Binary.antt =====
-- The type computers of the binary operators and of `replace` against their evaluators.
use mathlib.Core.Bool.{and-eq-true_iff}
use jayvee.Base.{◌≡◌, refl, subst, true, ◌&&◌, ◌||◌, Option, none, some, Bool-cases, inl, inr}
use jayvee.Expressions.{
  Outcome, Value, number, Runtime, BinaryOperator, pow_operator, root_operator,
  multiplication_operator, division_operator, modulo_operator, addition_operator,
  subtraction_operator, less_than_operator, less_equal_operator, greater_than_operator,
  greater_equal_operator, equality_operator, inequality_operator, xor_operator, in_operator,
  matches_operator,
}
use jayvee.Expressions.Operators.{evaluate_binary, evaluate_replace, on_numbers}
use jayvee.Expressions.Types.{
  ValueType, boolean_type, text_type, decimal_type, regex_type, is_convertible_to, has_shape,
  is_number,
}
use jayvee.Expressions.Types.Computers.{
  compute_binary_type, arithmetic_type, is_integer, is_equality_operand, default_binary_type,
  equality_type, compute_replace_type,
}
use jayvee.Expressions.Types.Membership.{in-IsSound}
use jayvee.Expressions.Types.Shapes.{
  IsSound, if_some, convertible_number, convertible_text, convertible_boolean, convertible_regex,
  on_number, on_string, on_boolean, on_regex, either_way,
}

pub equality_result : (t t' u : ValueType) → equality_type t t' ≡ some u → boolean_type ≡ u
equality_result t t' u e = elim (Bool-cases (is_equality_operand t && is_equality_operand t')) [
  | inl operands ↦
      (if_some (is_convertible_to t t' || is_convertible_to t' t) _ _ (rw operands at e)).1
  | inr others ↦ let absurd : ◌≡◌ {A = Option ValueType} none (some u) = rw others at e in cc
]

module _ {N R : Type 0} (js : Runtime N R) where
  two_numbers :
      (u t t' : ValueType) (v w : Value N R) (f : N → N → Outcome (Option (Value N R)))
      → is_convertible_to t decimal_type ≡ true
      → is_convertible_to t' decimal_type ≡ true
      → has_shape t v ≡ true
      → has_shape t' w ≡ true
      → ((n m : N) → IsSound u (f n m))
      → IsSound u (on_numbers js v w f)
  two_numbers u t t' v w f c c' h h' law =
      on_number u v _ (convertible_number t v c h)
        (λ n. on_number u w _ (convertible_number t' w c' h') (law n))

  arithmetic_shape :
      (t t' : ValueType) (v : Value N R)
      → is_number v ≡ true
      → has_shape (arithmetic_type t t') v ≡ true
  unfolding has_shape
  arithmetic_shape t t' v h = elim (Bool-cases (is_integer t && is_integer t')) [
    | inl e ↦ rw e h
    | inr e ↦ rw e h
  ]

  -- An operator with a default type computer
  default-IsSound :
      (op : BinaryOperator) (expected expected' t t' r u : ValueType) (v w : Value N R)
      → default_binary_type expected expected' t t' r ≡ some u
      → (is_convertible_to t expected ≡ true
          → is_convertible_to t' expected' ≡ true
          → IsSound r (evaluate_binary js op v w))
      → IsSound u (evaluate_binary js op v w)
  default-IsSound op expected expected' t t' r u v w e law =
      let (c, same) = if_some _ _ _ e in
      let (c₁, c₂) = (and-eq-true_iff _ _).0 c in
      subst (λ x. IsSound x (evaluate_binary js op v w)) same (law c₁ c₂)

  binary-IsSound :
      (op : BinaryOperator) (t t' u : ValueType) (v w : Value N R)
      → compute_binary_type op t t' ≡ some u
      → has_shape t v ≡ true
      → has_shape t' w ≡ true
      → IsSound u (evaluate_binary js op v w)
  unfolding compute_binary_type evaluate_binary has_shape
  binary-IsSound pow_operator t t' u v w e h h' =
      default-IsSound pow_operator decimal_type decimal_type t t' decimal_type u v w e (λ c c'.
        two_numbers decimal_type t t' v w _ c c' h h'
          (λ n m. either_way decimal_type (js.is_finite (js.power n m)) _ _ refl tt))
  binary-IsSound root_operator t t' u v w e h h' =
      default-IsSound root_operator decimal_type decimal_type t t' decimal_type u v w e (λ c c'.
        two_numbers decimal_type t t' v w _ c c' h h' (λ n m.
          either_way decimal_type (js.is_finite (js.power n (js.divided js.one m))) _ _ refl tt))
  binary-IsSound multiplication_operator t t' u v w e h h' =
      default-IsSound multiplication_operator decimal_type decimal_type t t' (arithmetic_type t t')
        u v w e
        (λ c c'.
          two_numbers (arithmetic_type t t') t t' v w _ c c' h h'
            (λ n m. arithmetic_shape t t' (number (js.times n m)) refl))
  binary-IsSound division_operator t t' u v w e h h' =
      default-IsSound division_operator decimal_type decimal_type t t' decimal_type u v w e (λ c c'.
        two_numbers decimal_type t t' v w _ c c' h h' (λ n m.
          either_way decimal_type (js.is_finite (js.divided n m)) _ _ refl
            (either_way decimal_type (js.same_number m js.zero) _ _ tt tt)))
  binary-IsSound modulo_operator t t' u v w e h h' =
      default-IsSound modulo_operator decimal_type decimal_type t t' decimal_type u v w e (λ c c'.
        two_numbers decimal_type t t' v w _ c c' h h'
          (λ n m. either_way decimal_type (js.is_finite (js.remainder n m)) _ _ refl tt))
  binary-IsSound addition_operator t t' u v w e h h' =
      default-IsSound addition_operator decimal_type decimal_type t t' (arithmetic_type t t') u v w
        e
        (λ c c'.
          two_numbers (arithmetic_type t t') t t' v w _ c c' h h'
            (λ n m. arithmetic_shape t t' (number (js.plus n m)) refl))
  binary-IsSound subtraction_operator t t' u v w e h h' =
      default-IsSound subtraction_operator decimal_type decimal_type t t' (arithmetic_type t t') u v
        w e
        (λ c c'.
          two_numbers (arithmetic_type t t') t t' v w _ c c' h h'
            (λ n m. arithmetic_shape t t' (number (js.minus n m)) refl))
  binary-IsSound less_than_operator t t' u v w e h h' =
      default-IsSound less_than_operator decimal_type decimal_type t t' boolean_type u v w e
        (λ c c'. two_numbers boolean_type t t' v w _ c c' h h' (λ n m. refl))
  binary-IsSound less_equal_operator t t' u v w e h h' =
      default-IsSound less_equal_operator decimal_type decimal_type t t' boolean_type u v w e
        (λ c c'. two_numbers boolean_type t t' v w _ c c' h h' (λ n m. refl))
  binary-IsSound greater_than_operator t t' u v w e h h' =
      default-IsSound greater_than_operator decimal_type decimal_type t t' boolean_type u v w e
        (λ c c'. two_numbers boolean_type t t' v w _ c c' h h' (λ n m. refl))
  binary-IsSound greater_equal_operator t t' u v w e h h' =
      default-IsSound greater_equal_operator decimal_type decimal_type t t' boolean_type u v w e
        (λ c c'. two_numbers boolean_type t t' v w _ c c' h h' (λ n m. refl))
  binary-IsSound equality_operator t t' u v w e h h' =
      subst (λ x. IsSound x (evaluate_binary js equality_operator v w)) (equality_result t t' u e)
        refl
  binary-IsSound inequality_operator t t' u v w e h h' =
      subst (λ x. IsSound x (evaluate_binary js inequality_operator v w)) (equality_result t t' u e)
        refl
  binary-IsSound xor_operator t t' u v w e h h' =
      default-IsSound xor_operator boolean_type boolean_type t t' boolean_type u v w e (λ c c'.
        on_boolean boolean_type v _ (convertible_boolean t v c h)
          (λ b. on_boolean boolean_type w _ (convertible_boolean t' w c' h') (λ b'. refl)))
  binary-IsSound in_operator t t' u v w e h h' = in-IsSound js t t' u v w e h h'
  binary-IsSound matches_operator t t' u v w e h h' =
      default-IsSound matches_operator text_type regex_type t t' boolean_type u v w e (λ c c'.
        on_string boolean_type v _ (convertible_text t v c h)
          (λ s. on_regex boolean_type w _ (convertible_regex t' w c' h') (λ r. refl)))

  -- Where the type computer of a binary operator gives a type for the types of the operands, the
  -- operator on values of the operands' shapes fails no guard, and its value has the shape of that type.
  pub evaluate_binary-IsSound :
      (op : BinaryOperator) (t t' u : ValueType) (v w : Value N R)
      → compute_binary_type op t t' ≡ some u
      → has_shape t v ≡ true
      → has_shape t' w ≡ true
      → IsSound u (evaluate_binary js op v w)
  evaluate_binary-IsSound op t t' u v w e h h' = binary-IsSound op t t' u v w e h h'

  -- Where the type computer of `replace` gives a type for the types of the operands, the operator on
  -- values of the operands' shapes fails no guard, and its value has the shape of that type.
  pub evaluate_replace-IsSound :
      (t₁ t₂ t₃ u : ValueType) (v₁ v₂ v₃ : Value N R)
      → compute_replace_type t₁ t₂ t₃ ≡ some u
      → has_shape t₁ v₁ ≡ true
      → has_shape t₂ v₂ ≡ true
      → has_shape t₃ v₃ ≡ true
      → IsSound u (evaluate_replace js v₁ v₂ v₃)
  unfolding compute_replace_type evaluate_replace has_shape
  evaluate_replace-IsSound t₁ t₂ t₃ u v₁ v₂ v₃ e h₁ h₂ h₃ =
      let (c, same) = if_some _ _ _ e in
      let (c₁, others) = (and-eq-true_iff _ _).0 c in
      let (c₂, c₃) = (and-eq-true_iff _ _).0 others in
      subst (λ x. IsSound x (evaluate_replace js v₁ v₂ v₃)) same
        (on_string text_type v₁ _ (convertible_text t₁ v₁ c₁ h₁) (λ s.
          on_regex text_type v₂ _ (convertible_regex t₂ v₂ c₂ h₂)
            (λ r. on_string text_type v₃ _ (convertible_text t₃ v₃ c₃ h₃) (λ s'. refl))))
