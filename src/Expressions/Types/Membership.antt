-- ===== src/Expressions/Types/Membership.antt =====
-- The operator `in`: what its type computer demands of the operand types, and its guards.
use mathlib.Core.Bool.{and-eq-true_iff}
use jayvee.Base.{
  ◌≡◌, refl, sym, subst, Bool, true, ◌&&◌, ◌||◌, Option, none, some, Bool-cases, inl, inr,
}
use jayvee.Expressions.{
  Value, boolean, number, string, regex, node, collection, Values, no_values, value, Runtime,
  in_operator,
}
use jayvee.Expressions.Operators.{evaluate_binary, is_string_or_number, every_string_or_number}
use jayvee.Expressions.Types.{
  ValueType, boolean_type, text_type, integer_type, decimal_type, regex_type, node_type,
  collection_type, empty_collection_type, atomic_type, rootless_type, is_convertible_to, has_shape,
  every, is_collection_of,
}
use jayvee.Expressions.Types.Computers.{is_in_operand, is_in_collection, in_type}
use jayvee.Expressions.Types.Shapes.{IsSound, if_some, number_of, string_of}

-- What the type computer finds where it gives a type.
pub record InOperands (t t' u : ValueType) : Type 0 where
  pub element : ValueType
  pub right : t' ≡ collection_type element
  pub left_operand : is_in_operand t ≡ true
  pub right_operand : is_in_collection (collection_type element) ≡ true
  pub result : boolean_type ≡ u

in_type-collection :
    (t x u : ValueType)
    → in_type t (collection_type x) ≡ some u
    → InOperands t (collection_type x) u
in_type-collection t x u e =
    elim (Bool-cases (is_in_operand t && is_in_collection (collection_type x))) [
      | inl valid ↦
          let (l, r) = (and-eq-true_iff _ _).0 valid in
          record {
            element = x;
            right = refl;
            left_operand = l;
            right_operand = r;
            result =
                (if_some (is_convertible_to t x || is_convertible_to x t) _ _ (rw valid at e)).1;
          }
      | inr invalid ↦ let absurd : ◌≡◌ {A = Option ValueType} none (some u) = rw invalid at e in cc
    ]

pub in_type_InOperands : (t t' u : ValueType) → in_type t t' ≡ some u → InOperands t t' u
in_type_InOperands t (collection_type x) u e = in_type-collection t x u e
in_type_InOperands t text_type u e = let absurd : ◌≡◌ {A = Option ValueType} none (some u) = e in cc
in_type_InOperands t integer_type u e =
    let absurd : ◌≡◌ {A = Option ValueType} none (some u) = e in cc
in_type_InOperands t decimal_type u e =
    let absurd : ◌≡◌ {A = Option ValueType} none (some u) = e in cc
in_type_InOperands t boolean_type u e =
    let absurd : ◌≡◌ {A = Option ValueType} none (some u) = e in cc
in_type_InOperands t regex_type u e =
    let absurd : ◌≡◌ {A = Option ValueType} none (some u) = e in cc
in_type_InOperands t (node_type k) u e =
    let absurd : ◌≡◌ {A = Option ValueType} none (some u) = e in cc
in_type_InOperands t empty_collection_type u e =
    let absurd : ◌≡◌ {A = Option ValueType} none (some u) = e in cc
in_type_InOperands t (atomic_type i x) u e =
    let absurd : ◌≡◌ {A = Option ValueType} none (some u) = e in cc
in_type_InOperands t (rootless_type i) u e =
    let absurd : ◌≡◌ {A = Option ValueType} none (some u) = e in cc

-- The element type of an admissible right operand is an admissible left one.
in_element : (t : ValueType) → is_in_collection (collection_type t) ≡ true → is_in_operand t ≡ true
in_element text_type h = refl
in_element integer_type h = refl
in_element decimal_type h = refl
in_element boolean_type h = cc
in_element regex_type h = cc
in_element (node_type k) h = cc
in_element empty_collection_type h = cc
in_element (atomic_type i x) h = cc
in_element (rootless_type i) h = cc
in_element (collection_type x) h = cc

module _ {N R : Type 0} where
  in_operand_shape :
      (t : ValueType) (v : Value N R)
      → is_in_operand t ≡ true
      → has_shape t v ≡ true
      → is_string_or_number v ≡ true
  unfolding has_shape
  in_operand_shape text_type v i h =
      let (s, same) = string_of v h in subst (λ w. is_string_or_number w ≡ true) (sym same) refl
  in_operand_shape integer_type v i h =
      let (n, same) = number_of v h in subst (λ w. is_string_or_number w ≡ true) (sym same) refl
  in_operand_shape decimal_type v i h =
      let (n, same) = number_of v h in subst (λ w. is_string_or_number w ≡ true) (sym same) refl
  in_operand_shape boolean_type v c h = cc
  in_operand_shape regex_type v c h = cc
  in_operand_shape (node_type k) v c h = cc
  in_operand_shape empty_collection_type v c h = cc
  in_operand_shape (atomic_type i x) v c h = cc
  in_operand_shape (rootless_type i) v c h = cc
  in_operand_shape (collection_type x) v c h = cc

  every_in_operand :
      (t : ValueType) (vs : Values N R)
      → is_in_operand t ≡ true
      → every (has_shape t) vs ≡ true
      → every_string_or_number vs ≡ true
  every_in_operand t no_values i h = refl
  every_in_operand t (value v vs) i h =
      let (first, rest) = (and-eq-true_iff _ _).0 h in
      rw (in_operand_shape t v i first) (every_in_operand t vs i rest)

  collection_of :
      (test : Value N R → Bool) (w : Value N R)
      → is_collection_of test w ≡ true
      → (vs : Values N R) × (w ≡ collection vs) × (every test vs ≡ true)
  collection_of test (collection vs) h = (vs, refl, h)
  collection_of test (boolean b) h = cc
  collection_of test (number b) h = cc
  collection_of test (string b) h = cc
  collection_of test (regex b) h = cc
  collection_of test (node b i) h = cc

  pub in-IsSound :
      (js : Runtime N R) (t t' u : ValueType) (v w : Value N R)
      → in_type t t' ≡ some u
      → has_shape t v ≡ true
      → has_shape t' w ≡ true
      → IsSound u (evaluate_binary js in_operator v w)
  unfolding evaluate_binary has_shape
  in-IsSound js t t' u v w e h h' =
      let ops = in_type_InOperands t t' u e in
      let shape : is_collection_of (has_shape ops.element) w ≡ true =
        subst (λ x. has_shape x w ≡ true) ops.right h' in
      let (vs, same, all_of) = collection_of (has_shape ops.element) w shape in
      let elements =
        every_in_operand ops.element vs (in_element ops.element ops.right_operand) all_of in
      subst (λ x. IsSound x (evaluate_binary js in_operator v w)) ops.result
        (subst (λ x. IsSound boolean_type (evaluate_binary js in_operator v x)) (sym same)
          (rw (in_operand_shape t v ops.left_operand h, elements) refl))
