-- ===== src/Expressions/Types/Numbers.antt =====
-- The numbers that an operator gives where its type computer says Integer.
use jayvee.Base.{
  ◌≡◌, refl, sym, ap, ◌∙◌, Bool, true, false, arith, not, ◌&&◌, ◌||◌, Option, none, some,
  Bool-cases, inl, inr, if◌then◌else◌,
}
use mathlib.Core.Bool.{and-eq-true_iff}
use jayvee.Expressions.{
  Outcome, gives, guard_fails, error_thrown, ◌>>=◌, Value, boolean, number, string, regex, node,
  collection, Runtime, integer_of, UnaryOperator, not_operator, plus_operator, minus_operator,
  sqrt_operator, floor_operator, ceil_operator, round_operator, lowercase_operator,
  uppercase_operator, as_decimal_operator, as_integer_operator, as_boolean_operator,
  as_text_operator, BinaryOperator, pow_operator, root_operator, multiplication_operator,
  division_operator, modulo_operator, addition_operator, subtraction_operator, less_than_operator,
  less_equal_operator, greater_than_operator, greater_equal_operator, equality_operator,
  inequality_operator, xor_operator, in_operator, matches_operator,
}
use jayvee.Expressions.Operators.{
  evaluate_unary, evaluate_binary, parsed, as_number, as_string, on_numbers,
}
use jayvee.Expressions.Types.{
  ValueType, boolean_type, text_type, integer_type, decimal_type, regex_type, node_type,
  collection_type, empty_collection_type, atomic_type, rootless_type, has_shape,
}
use jayvee.Expressions.Types.Computers.{
  compute_unary_type, compute_binary_type, arithmetic_type, is_integer,
}
use jayvee.Expressions.Types.Shapes.{IsSound, if_some}
use jayvee.Expressions.Types.Unary.{
  evaluate_unary-IsSound, compute_unary_type-eq, unary_result_type,
}
use jayvee.Expressions.Types.Membership.{in_type_InOperands}
use jayvee.Expressions.Types.Binary.{evaluate_binary-IsSound, equality_result}

-- The types whose values are integers
abbrev pub is_integral : ValueType → Bool
is_integral integer_type = true
is_integral (atomic_type i t) = is_integral t
is_integral _ = false

module _ {N R : Type 0} (js : Runtime N R) (is_integer_number : N → Bool) where
  -- An integer, or an overflow: an infinite number or no number
  abbrev pub is_whole : N → Bool
  is_whole n = not (js.is_finite n) || is_integer_number n

  abbrev pub is_whole_value : Value N R → Bool
  is_whole_value (number n) = is_whole n
  is_whole_value _ = true

  -- The shape of the type, and a whole number where the type is one of integers
  abbrev pub has_type : ValueType → Value N R → Bool
  has_type t v = has_shape t v && (not (is_integral t) || is_whole_value v)

  -- No guard fails, and a value is of the type.
  abbrev pub IsTyped : ValueType → Outcome (Option (Value N R)) → Type 0
  IsTyped t (gives none) = Unit
  IsTyped t (gives (some v)) = has_type t v ≡ true
  IsTyped t guard_fails = ⊥
  IsTyped t error_thrown = Unit

  -- The arithmetic of JavaScript's numbers gives integers for integers, unless it overflows.
  pub record HasWholeArithmetic : Type 0 where
    pub plus : (n m : N) → is_whole n ≡ true → is_whole m ≡ true → is_whole (js.plus n m) ≡ true
    pub minus : (n m : N) → is_whole n ≡ true → is_whole m ≡ true → is_whole (js.minus n m) ≡ true
    pub times : (n m : N) → is_whole n ≡ true → is_whole m ≡ true → is_whole (js.times n m) ≡ true
    pub negated : (n : N) → is_whole n ≡ true → is_whole (js.negated n) ≡ true
    pub floor : (n : N) → is_whole (js.floor n) ≡ true
    pub ceil : (n : N) → is_whole (js.ceil n) ≡ true
    pub round : (n : N) → is_whole (js.round n) ≡ true
    pub truncated : (n : N) → is_whole (js.truncated n) ≡ true

  abbrev IsWholeResult : Outcome (Option (Value N R)) → Type 0
  IsWholeResult (gives (some v)) = is_whole_value v ≡ true
  IsWholeResult _ = Unit

  sound_and_whole :
      (u : ValueType) (r : Outcome (Option (Value N R)))
      → IsSound u r
      → (is_integral u ≡ true → IsWholeResult r)
      → IsTyped u r
  sound_and_whole u (gives none) s w = tt
  sound_and_whole u (gives (some v)) s w = elim (Bool-cases (is_integral u)) [
    | inl integral ↦ rw (s, integral) (w integral)
    | inr other ↦ rw (s, other) refl
  ]
  sound_and_whole u guard_fails s w = s
  sound_and_whole u error_thrown s w = tt

  whole_operand :
      (t : ValueType) (v : Value N R)
      → is_integral t ≡ true
      → has_type t v ≡ true
      → is_whole_value v ≡ true
  whole_operand t v i h =
      let typed : (not (is_integral t) || is_whole_value v) ≡ true =
        ((and-eq-true_iff _ _).0 h).1 in
      rw i at typed

  whole_number :
      (v : Value N R) (f : N → N)
      → is_whole_value v ≡ true
      → ((n : N) → is_whole n ≡ true → is_whole (f n) ≡ true)
      → IsWholeResult (as_number v >>= (λ n. gives (some (number (f n)))))
  whole_number (number n) f h law = law n h
  whole_number (boolean b) f h law = tt
  whole_number (string b) f h law = tt
  whole_number (regex b) f h law = tt
  whole_number (node k b) f h law = tt
  whole_number (collection b) f h law = tt

  any_number :
      (v : Value N R) (f : N → N)
      → ((n : N) → is_whole (f n) ≡ true)
      → IsWholeResult (as_number v >>= (λ n. gives (some (number (f n)))))
  any_number (number n) f law = law n
  any_number (boolean b) f law = tt
  any_number (string b) f law = tt
  any_number (regex b) f law = tt
  any_number (node k b) f law = tt
  any_number (collection b) f law = tt

  whole_numbers :
      (v w : Value N R) (f : N → N → N)
      → is_whole_value v ≡ true
      → is_whole_value w ≡ true
      → ((n m : N) → is_whole n ≡ true → is_whole m ≡ true → is_whole (f n m) ≡ true)
      → IsWholeResult (on_numbers js v w (λ n m. gives (some (number (f n m)))))
  whole_numbers (number n) w f h h' law = whole_number w (f n) h' (λ m l. law n m h l)
  whole_numbers (boolean b) w f h h' law = tt
  whole_numbers (string b) w f h h' law = tt
  whole_numbers (regex b) w f h h' law = tt
  whole_numbers (node k b) w f h h' law = tt
  whole_numbers (collection b) w f h h' law = tt

  module _ (laws : HasWholeArithmetic) where
    whole_parsed :
        (o : Option N) → IsWholeResult (parsed (integer_of js o) >>= (λ n. gives (some (number n))))
    whole_parsed none = tt
    whole_parsed (some n) = elim (Bool-cases (js.same_number n (js.truncated n))) [
      | inl same ↦ rw same (laws.truncated n)
      | inr other ↦ rw other tt
    ]

    whole_text :
        (v : Value N R)
        → IsWholeResult (
            as_string v >>= (λ s.
              parsed (integer_of js (js.parse_decimal s)) >>= (λ n. gives (some (number n)))))
    whole_text (string s) = whole_parsed (js.parse_decimal s)
    whole_text (number n) = tt
    whole_text (boolean b) = tt
    whole_text (regex b) = tt
    whole_text (node k b) = tt
    whole_text (collection b) = tt

    unary-IsWholeResult :
        (op : UnaryOperator) (t : ValueType) (v : Value N R)
        → is_integral (unary_result_type op t) ≡ true
        → has_type t v ≡ true
        → IsWholeResult (evaluate_unary js op v)
    unfolding evaluate_unary
    unary-IsWholeResult plus_operator t v i h =
        whole_number v (λ n. n) (whole_operand t v i h) (λ n l. l)
    unary-IsWholeResult minus_operator t v i h =
        whole_number v js.negated (whole_operand t v i h) laws.negated
    unary-IsWholeResult floor_operator t v i h = any_number v js.floor laws.floor
    unary-IsWholeResult ceil_operator t v i h = any_number v js.ceil laws.ceil
    unary-IsWholeResult round_operator t v i h = any_number v js.round laws.round
    unary-IsWholeResult as_integer_operator t v i h = whole_text v
    unary-IsWholeResult not_operator t v i h = cc
    unary-IsWholeResult sqrt_operator t v i h = cc
    unary-IsWholeResult lowercase_operator t v i h = cc
    unary-IsWholeResult uppercase_operator t v i h = cc
    unary-IsWholeResult as_decimal_operator t v i h = cc
    unary-IsWholeResult as_boolean_operator t v i h = cc
    unary-IsWholeResult as_text_operator t v i h = cc

    -- Where JavaScript's arithmetic gives integers for integers, unless it overflows, and the type
    -- computer of a unary operator gives a type for the type of the operand: the operator on a value of
    -- the operand's type fails no guard, and its value is of that type. A value is of a type if it has
    -- its shape and, where the type is one of integers, is an integer or an overflow.
    pub evaluate_unary-IsTyped :
        (op : UnaryOperator) (t u : ValueType) (v : Value N R)
        → compute_unary_type op t ≡ some u
        → has_type t v ≡ true
        → IsTyped u (evaluate_unary js op v)
    evaluate_unary-IsTyped op t u v e h =
        let (_, same) = if_some _ _ _ (sym (compute_unary_type-eq op t) ∙ e) in
        sound_and_whole u (evaluate_unary js op v)
          (evaluate_unary-IsSound js op t u v e ((and-eq-true_iff _ _).0 h).0)
          (λ i. unary-IsWholeResult op t v (ap is_integral same ∙ i) h)

    integer-IsIntegral : (t : ValueType) → is_integer t ≡ true → is_integral t ≡ true
    integer-IsIntegral integer_type h = refl
    integer-IsIntegral boolean_type h = cc
    integer-IsIntegral text_type h = cc
    integer-IsIntegral decimal_type h = cc
    integer-IsIntegral regex_type h = cc
    integer-IsIntegral (node_type k) h = cc
    integer-IsIntegral (collection_type t) h = cc
    integer-IsIntegral empty_collection_type h = cc
    integer-IsIntegral (atomic_type i t) h = cc
    integer-IsIntegral (rootless_type i) h = cc

    -- The result type of basic arithmetic is integral for two integers only.
    integer_operands :
        (t t' : ValueType)
        → is_integral (arithmetic_type t t') ≡ true
        → (is_integer t ≡ true) × (is_integer t' ≡ true)
    integer_operands t t' h = ground arith

    -- An operator of basic arithmetic
    arithmetic-IsWholeResult :
        (t t' u : ValueType) (v w : Value N R) (b : Bool) (f : N → N → N)
        → ◌≡◌ {A = Option ValueType} (if b then some (arithmetic_type t t') else none) (some u)
        → is_integral u ≡ true
        → has_type t v ≡ true
        → has_type t' w ≡ true
        → ((n m : N) → is_whole n ≡ true → is_whole m ≡ true → is_whole (f n m) ≡ true)
        → IsWholeResult (on_numbers js v w (λ n m. gives (some (number (f n m)))))
    arithmetic-IsWholeResult t t' u v w b f e i h h' law =
        let (_, same) = if_some b _ _ e in
        let (p, q) = integer_operands t t' (ap is_integral same ∙ i) in
        whole_numbers v w f (whole_operand t v (integer-IsIntegral t p) h)
          (whole_operand t' w (integer-IsIntegral t' q) h') law

    -- An operator whose result type is not integral
    not_integral :
        (r u : ValueType) (b : Bool)
        → is_integral r ≡ false
        → ◌≡◌ {A = Option ValueType} (if b then some r else none) (some u)
        → is_integral u ≡ true
        → ⊥
    not_integral r u b h e i =
        let (_, same) = if_some b _ _ e in
        let absurd : true ≡ false = sym i ∙ ap is_integral (sym same) ∙ h in cc

    boolean_result : (u : ValueType) → boolean_type ≡ u → is_integral u ≡ true → ⊥
    boolean_result u same i = let absurd : false ≡ true = ap is_integral same ∙ i in cc

    binary-IsWholeResult :
        (op : BinaryOperator) (t t' u : ValueType) (v w : Value N R)
        → compute_binary_type op t t' ≡ some u
        → is_integral u ≡ true
        → has_type t v ≡ true
        → has_type t' w ≡ true
        → IsWholeResult (evaluate_binary js op v w)
    unfolding compute_binary_type evaluate_binary
    binary-IsWholeResult multiplication_operator t t' u v w e i h h' =
        arithmetic-IsWholeResult t t' u v w _ js.times e i h h' laws.times
    binary-IsWholeResult addition_operator t t' u v w e i h h' =
        arithmetic-IsWholeResult t t' u v w _ js.plus e i h h' laws.plus
    binary-IsWholeResult subtraction_operator t t' u v w e i h h' =
        arithmetic-IsWholeResult t t' u v w _ js.minus e i h h' laws.minus
    binary-IsWholeResult pow_operator t t' u v w e i h h' =
        elim (not_integral decimal_type u _ refl e i) [ ]
    binary-IsWholeResult root_operator t t' u v w e i h h' =
        elim (not_integral decimal_type u _ refl e i) [ ]
    binary-IsWholeResult division_operator t t' u v w e i h h' =
        elim (not_integral decimal_type u _ refl e i) [ ]
    binary-IsWholeResult modulo_operator t t' u v w e i h h' =
        elim (not_integral decimal_type u _ refl e i) [ ]
    binary-IsWholeResult less_than_operator t t' u v w e i h h' =
        elim (not_integral boolean_type u _ refl e i) [ ]
    binary-IsWholeResult less_equal_operator t t' u v w e i h h' =
        elim (not_integral boolean_type u _ refl e i) [ ]
    binary-IsWholeResult greater_than_operator t t' u v w e i h h' =
        elim (not_integral boolean_type u _ refl e i) [ ]
    binary-IsWholeResult greater_equal_operator t t' u v w e i h h' =
        elim (not_integral boolean_type u _ refl e i) [ ]
    binary-IsWholeResult xor_operator t t' u v w e i h h' =
        elim (not_integral boolean_type u _ refl e i) [ ]
    binary-IsWholeResult matches_operator t t' u v w e i h h' =
        elim (not_integral boolean_type u _ refl e i) [ ]
    binary-IsWholeResult equality_operator t t' u v w e i h h' =
        elim (boolean_result u (equality_result t t' u e) i) [ ]
    binary-IsWholeResult inequality_operator t t' u v w e i h h' =
        elim (boolean_result u (equality_result t t' u e) i) [ ]
    binary-IsWholeResult in_operator t t' u v w e i h h' =
        elim (boolean_result u ((in_type_InOperands t t' u e).result) i) [ ]

    -- Where JavaScript's arithmetic gives integers for integers, unless it overflows, and the type
    -- computer of a binary operator gives a type for the types of the operands: the operator on values
    -- of the operands' types fails no guard, and its value is of that type. A value is of a type if it
    -- has its shape and, where the type is one of integers, is an integer or an overflow.
    pub evaluate_binary-IsTyped :
        (op : BinaryOperator) (t t' u : ValueType) (v w : Value N R)
        → compute_binary_type op t t' ≡ some u
        → has_type t v ≡ true
        → has_type t' w ≡ true
        → IsTyped u (evaluate_binary js op v w)
    evaluate_binary-IsTyped op t t' u v w e h h' =
        sound_and_whole u (evaluate_binary js op v w)
          (evaluate_binary-IsSound js op t t' u v w e ((and-eq-true_iff _ _).0 h).0
            ((and-eq-true_iff _ _).0 h').0)
          (λ i. binary-IsWholeResult op t t' u v w e i h h')
