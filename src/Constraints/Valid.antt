-- ===== src/Constraints/Valid.antt =====
-- What the check of a value against its type promises.
use mathlib.Core.Bool.{and-eq-true_iff}
use jayvee.Base.{
  ◌≡◌, refl, sym, ap, ap₂, ◌∙◌, subst, Bool, true, false, none, List, [], ◌∷◌, All, Result, NoError,
  ok, >>=-eq-ok, ok_injective, Bool-cases, inl, inr, String,
}
use jayvee.Expressions.{
  Value, boolean, number, string, regex, node, collection, Values, no_values, value, Runtime,
  EvaluationContext, delete_value_for_value_keyword, set_value_for_value_keyword, lazy,
}
use jayvee.Expressions.Evaluate.{evaluate_expression}
use jayvee.Expressions.Types.{
  ValueType, boolean_type, text_type, integer_type, decimal_type, regex_type, node_type,
  collection_type, empty_collection_type, atomic_type, rootless_type, has_shape, every,
}
use jayvee.Constraints.{
  Numerals, Constraint, typed_constraint, expression_constraint, thrown_on,
  is_internal_value_representation,
}
use jayvee.Constraints.Executors.{is_valid, typed_is_valid, boolean_result}
use jayvee.Constraints.Validity.{Definitions, get_constraints, fulfills_all}

module _ {N R : Type 0} (js : Runtime N R) (numerals : Numerals N) where
  every-imp :
      (p q : Value N R → Bool) (vs : Values N R)
      → ((v : Value N R) → p v ≡ true → q v ≡ true)
      → every p vs ≡ true
      → every q vs ≡ true
  every-imp p q no_values f h = refl
  every-imp p q (value v vs) f h =
      let (first, rest) = (and-eq-true_iff _ _).0 h in
      (and-eq-true_iff _ _).1 (f v first, every-imp p q vs f rest)

  -- The representation of a type has its shape.
  pub representation-has_shape :
      (t : ValueType) (v : Value N R)
      → is_internal_value_representation js numerals t v ≡ true
      → has_shape t v ≡ true
  unfolding is_internal_value_representation has_shape
  representation-has_shape boolean_type v h = h
  representation-has_shape text_type v h = h
  representation-has_shape integer_type (number n) h = refl
  representation-has_shape decimal_type (number n) h = refl
  representation-has_shape regex_type v h = h
  representation-has_shape (node_type k) v h = h
  representation-has_shape (collection_type t) (collection vs) h =
      every-imp _ _ vs (λ v. representation-has_shape t v) h
  representation-has_shape empty_collection_type v h = h
  representation-has_shape (atomic_type i t) v h = representation-has_shape t v h
  representation-has_shape (rootless_type i) v h = h
  representation-has_shape integer_type (boolean b) h = cc
  representation-has_shape integer_type (string s) h = cc
  representation-has_shape integer_type (regex r) h = cc
  representation-has_shape integer_type (node k i) h = cc
  representation-has_shape integer_type (collection vs) h = cc
  representation-has_shape decimal_type (boolean b) h = cc
  representation-has_shape decimal_type (string s) h = cc
  representation-has_shape decimal_type (regex r) h = cc
  representation-has_shape decimal_type (node k i) h = cc
  representation-has_shape decimal_type (collection vs) h = cc
  representation-has_shape (collection_type t) (boolean b) h = cc
  representation-has_shape (collection_type t) (number n) h = cc
  representation-has_shape (collection_type t) (string s) h = cc
  representation-has_shape (collection_type t) (regex r) h = cc
  representation-has_shape (collection_type t) (node k i) h = cc

module _ {N R : Type 0} (js : Runtime N R) (numerals : Numerals N)
    (runtime_parameters : List (String × String)) (definitions : Definitions N R)
    (c : EvaluationContext N R) (no_keyword : c.value_keyword_value ≡ none) where
  restored : (v : Value N R) → delete_value_for_value_keyword (set_value_for_value_keyword v c) ≡ c
  restored v = λ i. record c { value_keyword_value = sym no_keyword i }

  is_valid-context :
      (k : Constraint N R) (v : Value N R) (b : Bool) (c' : EvaluationContext N R)
      → is_valid js numerals runtime_parameters k v c ≡ ok (b, c')
      → c' ≡ c
  unfolding is_valid
  is_valid-context (typed_constraint type body) v b c' e =
      let (_, _, e') =
        >>=-eq-ok (typed_is_valid js numerals runtime_parameters type body c v) _ e in
      sym (ap (λ r. r.1) (ok_injective e'))
  is_valid-context (expression_constraint x) v b c' e =
      let (result, _, e') =
        >>=-eq-ok (thrown_on (evaluate_expression js lazy (set_value_for_value_keyword v c) x)) _
          e in
      let (_, _, e'') = >>=-eq-ok (boolean_result result) _ e' in
      sym (ap (λ r. r.1) (ok_injective e'')) ∙ restored v

  -- The value satisfies every constraint of the list.
  abbrev pub Fulfills : List (Constraint N R) → Value N R → Type 0
  Fulfills ks v = All (λ k. is_valid js numerals runtime_parameters k v c ≡ ok (true, c)) ks

  -- The value represents the primitive type at the root of the type, and satisfies every constraint
  -- of every atomic type between that one and the type.
  abbrev pub IsValid : Value N R → ValueType → Type 0
  IsValid v (atomic_type i t) =
      IsValid v t
      × (ks : List (Constraint N R)) × (get_constraints js numerals runtime_parameters definitions i
            c
          ≡ ok ks)
      × Fulfills ks v
  IsValid v (rootless_type i) = ⊥
  IsValid v t = is_internal_value_representation js numerals t v ≡ true

  pub fulfills_all-Fulfills :
      (ks : List (Constraint N R)) (v : Value N R) (c' : EvaluationContext N R)
      → fulfills_all js numerals runtime_parameters definitions ks v c ≡ ok (true, c')
      → Fulfills ks v
  unfolding fulfills_all
  fulfills_all-Fulfills [] v c' e = tt
  fulfills_all-Fulfills (k ∷ ks) v c' e =
      let (r, found, e') = >>=-eq-ok (is_valid js numerals runtime_parameters k v c) _ e in
      let same = is_valid-context k v r.0 r.1 found in
      elim (Bool-cases r.0) [
        | inl holds ↦
            let later : fulfills_all js numerals runtime_parameters definitions ks v r.1
                ≡ ok (true, c') =
              rw holds at e' in
            (
              found ∙ ap₂ (λ b x. ok (b, x)) holds same,
              fulfills_all-Fulfills ks v c' (
                  subst
                    (λ x.
                      fulfills_all js numerals runtime_parameters definitions ks v x
                      ≡ ok (true, c'))
                    same later),
            )
        | inr fails ↦
            let ended : ◌≡◌ {A = Result NoError (Bool × EvaluationContext N R)} (ok (false, r.1))
                (ok (true, c')) =
              rw fails at e' in
            let absurd : false ≡ true = ap (λ x. x.0) (ok_injective ended) in cc
      ]

  pub Fulfills-fulfills_all :
      (ks : List (Constraint N R)) (v : Value N R)
      → Fulfills ks v
      → fulfills_all js numerals runtime_parameters definitions ks v c ≡ ok (true, c)
  unfolding fulfills_all
  Fulfills-fulfills_all [] v f = refl
  Fulfills-fulfills_all (k ∷ ks) v (f, fs) = rw f (Fulfills-fulfills_all ks v fs)

  pub fulfills_all-context :
      (ks : List (Constraint N R)) (v : Value N R) (b : Bool) (c' : EvaluationContext N R)
      → fulfills_all js numerals runtime_parameters definitions ks v c ≡ ok (b, c')
      → c' ≡ c
  unfolding fulfills_all
  fulfills_all-context [] v b c' e = sym (ap (λ x. x.1) (ok_injective e))
  fulfills_all-context (k ∷ ks) v b c' e =
      let (r, found, e') = >>=-eq-ok (is_valid js numerals runtime_parameters k v c) _ e in
      let same = is_valid-context k v r.0 r.1 found in
      elim (Bool-cases r.0) [
        | inl holds ↦
            let later : fulfills_all js numerals runtime_parameters definitions ks v r.1
                ≡ ok (b, c') =
              rw holds at e' in
            fulfills_all-context ks v b c' (
              subst
                (λ x. fulfills_all js numerals runtime_parameters definitions ks v x ≡ ok (b, c'))
                same later)
        | inr fails ↦
            let ended : ◌≡◌ {A = Result NoError (Bool × EvaluationContext N R)} (ok (false, r.1))
                (ok (b, c')) =
              rw fails at e' in
            sym (ap (λ x. x.1) (ok_injective ended)) ∙ same
      ]
