-- ===== src/Constraints/Accepted.antt =====
-- `isValidValueRepresentation` against the description of a valid value.
use jayvee.Base.{
  ◌≡◌, sym, ap, ◌∙◌, subst, ◌↔◌, Bool, true, false, none, List, Result, NoError, ok, >>=-eq-ok,
  ok_injective, Bool-cases, inl, inr, String,
}
use jayvee.Expressions.{Value, Runtime, EvaluationContext}
use jayvee.Expressions.Types.{
  ValueType, boolean_type, text_type, integer_type, decimal_type, regex_type, node_type,
  collection_type, empty_collection_type, atomic_type, rootless_type, has_shape,
}
use jayvee.Constraints.{Numerals}
use jayvee.Constraints.Validity.{
  Definitions, get_constraints, fulfills_all, is_valid_value_representation,
}
use jayvee.Constraints.Valid.{
  representation-has_shape, IsValid, fulfills_all-Fulfills, Fulfills-fulfills_all,
  fulfills_all-context,
}

module _ {N R : Type 0} (js : Runtime N R) (numerals : Numerals N)
    (runtime_parameters : List (String × String)) (definitions : Definitions N R)
    (c : EvaluationContext N R) (no_keyword : c.value_keyword_value ≡ none) where
  -- A check that is run outside of any expression constraint leaves the evaluation context as it was,
  -- whatever it answers.
  pub is_valid_value_representation-context :
      (v : Value N R) (t : ValueType) (b : Bool) (c' : EvaluationContext N R)
      → is_valid_value_representation js numerals runtime_parameters definitions v t c ≡ ok (b, c')
      → c' ≡ c
  unfolding is_valid_value_representation
  is_valid_value_representation-context v (atomic_type i t) b c' e =
      let (r, found, e') =
        >>=-eq-ok (is_valid_value_representation js numerals runtime_parameters definitions v t c) _
          e in
      let same = is_valid_value_representation-context v t r.0 r.1 found in
      elim (Bool-cases r.0) [
        | inl holds ↦
            let (ks, _, later) =
              >>=-eq-ok (get_constraints js numerals runtime_parameters definitions i r.1) _
                (rw holds at e') in
            fulfills_all-context js numerals runtime_parameters definitions c no_keyword ks v b c' (
              subst
                (λ x. fulfills_all js numerals runtime_parameters definitions ks v x ≡ ok (b, c'))
                same later)
        | inr fails ↦
            let ended : ◌≡◌ {A = Result NoError (Bool × EvaluationContext N R)} (ok (false, r.1))
                (ok (b, c')) =
              rw fails at e' in
            sym (ap (λ x. x.1) (ok_injective ended)) ∙ same
      ]
  is_valid_value_representation-context v (rootless_type i) b c' e = cc
  is_valid_value_representation-context v boolean_type b c' e = sym (ap (λ x. x.1) (ok_injective e))
  is_valid_value_representation-context v text_type b c' e = sym (ap (λ x. x.1) (ok_injective e))
  is_valid_value_representation-context v integer_type b c' e = sym (ap (λ x. x.1) (ok_injective e))
  is_valid_value_representation-context v decimal_type b c' e = sym (ap (λ x. x.1) (ok_injective e))
  is_valid_value_representation-context v regex_type b c' e = sym (ap (λ x. x.1) (ok_injective e))
  is_valid_value_representation-context v (node_type k) b c' e =
      sym (ap (λ x. x.1) (ok_injective e))
  is_valid_value_representation-context v (collection_type x) b c' e =
      sym (ap (λ x. x.1) (ok_injective e))
  is_valid_value_representation-context v empty_collection_type b c' e =
      sym (ap (λ x. x.1) (ok_injective e))

  accepted :
      (v : Value N R) (t : ValueType)
      → IsValid js numerals runtime_parameters definitions c no_keyword v t
      → is_valid_value_representation js numerals runtime_parameters definitions v t c
        ≡ ok (true, c)
  unfolding is_valid_value_representation
  accepted v (atomic_type i t) (by_supertype, ks, found, all) =
      rw (accepted v t by_supertype, found)
        (Fulfills-fulfills_all js numerals runtime_parameters definitions c no_keyword ks v all)
  accepted v (rootless_type i) h = elim h [ ]
  accepted v boolean_type h = ap (λ b. ok (b, c)) h
  accepted v text_type h = ap (λ b. ok (b, c)) h
  accepted v integer_type h = ap (λ b. ok (b, c)) h
  accepted v decimal_type h = ap (λ b. ok (b, c)) h
  accepted v regex_type h = ap (λ b. ok (b, c)) h
  accepted v (node_type k) h = ap (λ b. ok (b, c)) h
  accepted v (collection_type x) h = ap (λ b. ok (b, c)) h
  accepted v empty_collection_type h = ap (λ b. ok (b, c)) h

  valid_if_accepted :
      (v : Value N R) (t : ValueType) (c' : EvaluationContext N R)
      → is_valid_value_representation js numerals runtime_parameters definitions v t c
        ≡ ok (true, c')
      → IsValid js numerals runtime_parameters definitions c no_keyword v t
  unfolding is_valid_value_representation
  valid_if_accepted v (atomic_type i t) c' e =
      let (r, found, e') =
        >>=-eq-ok (is_valid_value_representation js numerals runtime_parameters definitions v t c) _
          e in
      let same = is_valid_value_representation-context v t r.0 r.1 found in
      elim (Bool-cases r.0) [
        | inl holds ↦
            let (ks, listed, later) =
              >>=-eq-ok (get_constraints js numerals runtime_parameters definitions i r.1) _
                (rw holds at e') in
            (
              valid_if_accepted v t r.1 (found ∙ ap (λ b. ok (b, r.1)) holds),
              ks,
              sym (ap (get_constraints js numerals runtime_parameters definitions i) same) ∙ listed,
              fulfills_all-Fulfills js numerals runtime_parameters definitions c no_keyword ks v c'
                  (subst
                    (λ x.
                      fulfills_all js numerals runtime_parameters definitions ks v x
                      ≡ ok (true, c'))
                    same later),
            )
        | inr fails ↦
            let ended : ◌≡◌ {A = Result NoError (Bool × EvaluationContext N R)} (ok (false, r.1))
                (ok (true, c')) =
              rw fails at e' in
            let absurd : false ≡ true = ap (λ x. x.0) (ok_injective ended) in cc
      ]
  valid_if_accepted v (rootless_type i) c' e = cc
  valid_if_accepted v boolean_type c' e = ap (λ x. x.0) (ok_injective e)
  valid_if_accepted v text_type c' e = ap (λ x. x.0) (ok_injective e)
  valid_if_accepted v integer_type c' e = ap (λ x. x.0) (ok_injective e)
  valid_if_accepted v decimal_type c' e = ap (λ x. x.0) (ok_injective e)
  valid_if_accepted v regex_type c' e = ap (λ x. x.0) (ok_injective e)
  valid_if_accepted v (node_type k) c' e = ap (λ x. x.0) (ok_injective e)
  valid_if_accepted v (collection_type x) c' e = ap (λ x. x.0) (ok_injective e)
  valid_if_accepted v empty_collection_type c' e = ap (λ x. x.0) (ok_injective e)

  -- A check that is run outside of any expression constraint accepts a value for a type exactly where
  -- the value represents the primitive type at the root of the type, and satisfies every constraint
  -- of each atomic type on the way down to the type.
  pub is_valid_value_representation_iff :
      (v : Value N R) (t : ValueType)
      → is_valid_value_representation js numerals runtime_parameters definitions v t c
          ≡ ok (true, c)
        ↔ IsValid js numerals runtime_parameters definitions c no_keyword v t
  is_valid_value_representation_iff v t = (valid_if_accepted v t c, accepted v t)

  IsValid-has_shape :
      (v : Value N R) (t : ValueType)
      → IsValid js numerals runtime_parameters definitions c no_keyword v t
      → has_shape t v ≡ true
  unfolding has_shape
  IsValid-has_shape v (atomic_type i t) h = IsValid-has_shape v t h.0
  IsValid-has_shape v (rootless_type i) h = elim h [ ]
  IsValid-has_shape v boolean_type h = representation-has_shape js numerals boolean_type v h
  IsValid-has_shape v text_type h = representation-has_shape js numerals text_type v h
  IsValid-has_shape v integer_type h = representation-has_shape js numerals integer_type v h
  IsValid-has_shape v decimal_type h = representation-has_shape js numerals decimal_type v h
  IsValid-has_shape v regex_type h = representation-has_shape js numerals regex_type v h
  IsValid-has_shape v (node_type k) h = representation-has_shape js numerals (node_type k) v h
  IsValid-has_shape v (collection_type x) h =
      representation-has_shape js numerals (collection_type x) v h
  IsValid-has_shape v empty_collection_type h =
      representation-has_shape js numerals empty_collection_type v h

  -- A value that is accepted for a type by a check outside of any expression constraint has the shape
  -- of the type, which the guards of the operators ask for.
  pub is_valid_value_representation-has_shape :
      (v : Value N R) (t : ValueType) (c' : EvaluationContext N R)
      → is_valid_value_representation js numerals runtime_parameters definitions v t c
        ≡ ok (true, c')
      → has_shape t v ≡ true
  is_valid_value_representation-has_shape v t c' e =
      IsValid-has_shape v t (valid_if_accepted v t c' e)
