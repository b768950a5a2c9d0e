-- ===== src/Expressions/Inference/Literals.antt =====
-- The types of literals, references and the value keyword fit their values.
use jayvee.Base.{
  ℕ, ◌≡◌, refl, sym, subst, Bool, true, false, Option, none, some, List, ◌∷◌, String, inl, inr,
  Bool-cases,
}
use jayvee.Base.Dict.{lookup}
use jayvee.Expressions.{
  Outcome, gives, guard_fails, error_thrown, ◌>>=◌, NodeKind, cell_range_node,
  value_type_assignment_node, constraint_node, transform_node, Value, boolean, number, string,
  regex, node, collection, Values, Reference, unresolved, definition, variable, reference, Strategy,
  Runtime, EvaluationContext,
}
use jayvee.Expressions.Operators.{as_string}
use jayvee.Expressions.Evaluate.{evaluate_expression, get_value_for_value_keyword}
use jayvee.Expressions.Types.{
  ValueType, text_type, integer_type, is_convertible_to, has_shape, same_kind,
}
use jayvee.Expressions.Types.Declared.{IsDeclared}
use jayvee.Expressions.Types.Shapes.{IsSound, if_some, convertible_text, on_string}
use jayvee.Expressions.Inference.{
  TypeContext, infer_literal_type, infer_reference_type, infer_value_keyword_type, on_type,
  defined_type,
}
use jayvee.Expressions.Inference.Elements.{HasTypes, some-eq}

pub on_type-some :
    (o : Option ValueType) (f : ValueType → Option ValueType) (u : ValueType)
    → on_type o f ≡ some u
    → (t : ValueType) × (o ≡ some t) × (f t ≡ some u)
on_type-some none f u e = cc
on_type-some (some t) f u e = (t, refl, e)

pub defined_type-some :
    (o : Option ValueType) (os : Option (List ValueType)) (us : List ValueType)
    → defined_type o os ≡ some us
    → (t : ValueType) × (ts : List ValueType) × (o ≡ some t) × (os ≡ some ts) × (us ≡ t ∷ ts)
defined_type-some none os us e = cc
defined_type-some (some t) none us e = cc
defined_type-some (some t) (some ts) us e = (t, ts, refl, refl, sym (some-eq (t ∷ ts) us e))

-- The values of the context have the shapes of the types that the inference reads, which are
-- declared.
pub record Agrees {N R : Type 0} (declared : ℕ → ValueType) (types : TypeContext N)
    (c : EvaluationContext N R) : Type 0 where
  pub variables :
      (name : String) (t : ValueType) (v : Value N R)
      → lookup name types.variable_types ≡ some t
      → lookup name c.variable_values ≡ some v
      → has_shape t v ≡ true
  pub value_keyword :
      (t : ValueType) (v : Value N R)
      → types.value_keyword_type ≡ some t
      → c.value_keyword_value ≡ some v
      → has_shape t v ≡ true
  pub declared_variables :
      (name : String) (t : ValueType)
      → lookup name types.variable_types ≡ some t
      → IsDeclared declared t
  pub declared_value : (t : ValueType) → types.value_keyword_type ≡ some t → IsDeclared declared t

module _ {N R : Type 0} (declared : ℕ → ValueType) where
  -- The type is declared and the outcome sound.
  abbrev pub IsTyped : ValueType → Outcome (Option (Value N R)) → Type 0
  IsTyped t m = IsDeclared declared t × IsSound t m

  abbrev pub AreTyped : List ValueType → Outcome (Option (Values N R)) → Type 0
  AreTyped ts (gives none) = Unit
  AreTyped ts (gives (some vs)) = HasTypes declared ts vs
  AreTyped ts guard_fails = ⊥
  AreTyped ts error_thrown = Unit

module _ {N R : Type 0} (declared : ℕ → ValueType) where
  given :
      (t u : ValueType) (v : Value N R)
      → ◌≡◌ {A = Option ValueType} (some t) (some u)
      → IsDeclared declared t × (has_shape t v ≡ true)
      → IsTyped declared u (gives (some v))
  given t u v e h =
      subst (λ x. IsTyped {N = N} {R = R} declared x (gives (some v))) (some-eq t u e) h

module _ {N R : Type 0} (declared : ℕ → ValueType) (types : TypeContext N) where
  pub literal-IsTyped :
      (v : Value N R) (u : ValueType)
      → infer_literal_type types v ≡ some u
      → IsTyped declared u (gives (some v))
  unfolding has_shape
  literal-IsTyped (boolean b) u e = given declared _ u (boolean b) e (tt, refl)
  literal-IsTyped (number n) u e =
      given declared _ u (number n) e (elim (Bool-cases (types.is_integer_number n)) [
        | inl h ↦ rw h (tt, refl)
        | inr h ↦ rw h (tt, refl)
      ])
  literal-IsTyped (string s) u e = given declared _ u (string s) e (tt, refl)
  literal-IsTyped (regex r) u e = given declared _ u (regex r) e (tt, refl)
  literal-IsTyped (node cell_range_node i) u e =
      given declared _ u (node cell_range_node i) e (tt, refl)
  literal-IsTyped (node value_type_assignment_node i) u e =
      given declared _ u (node value_type_assignment_node i) e (tt, refl)
  literal-IsTyped (node constraint_node i) u e = cc
  literal-IsTyped (node transform_node i) u e = cc
  literal-IsTyped (collection vs) u e = cc

same_kind_self : (k : NodeKind) → same_kind k k ≡ true
same_kind_self cell_range_node = refl
same_kind_self constraint_node = refl
same_kind_self value_type_assignment_node = refl
same_kind_self transform_node = refl

module _ {N R : Type 0} (js : Runtime N R) (declared : ℕ → ValueType) (types : TypeContext N)
    (c : EvaluationContext N R) (agrees : Agrees declared types c) (strategy : Strategy) where
  found-IsSound :
      (t : ValueType) (o : Option (Value N R))
      → ((v : Value N R) → o ≡ some v → has_shape t v ≡ true)
      → IsSound t (gives o)
  found-IsSound t none f = tt
  found-IsSound t (some v) f = f v refl

  pub reference-IsTyped :
      (r : Reference) (u : ValueType)
      → infer_reference_type types r ≡ some u
      → IsTyped declared u (evaluate_expression js strategy c (reference r))
  unfolding evaluate_expression has_shape
  reference-IsTyped unresolved u e = cc
  reference-IsTyped (definition k i) u e = given declared _ u (node k i) e (tt, same_kind_self k)
  reference-IsTyped (variable name) u e = (
    agrees.declared_variables name u e,
    found-IsSound u (lookup name c.variable_values) (λ v f. agrees.variables name u v e f),
  )

  pub keyword-IsTyped :
      (length_access : Bool) (u : ValueType)
      → infer_value_keyword_type types length_access ≡ some u
      → IsTyped declared u (get_value_for_value_keyword js length_access c)
  unfolding get_value_for_value_keyword has_shape
  keyword-IsTyped true u e =
      let (t, found, e') = on_type-some types.value_keyword_type _ u e in
      let (conv, same) = if_some (is_convertible_to t text_type) integer_type u e' in
      subst (λ x. IsTyped declared x (get_value_for_value_keyword js true c)) same
        (tt, access t conv c.value_keyword_value (λ v f. agrees.value_keyword t v found f))
    where
      access :
          (t : ValueType)
          → is_convertible_to t text_type ≡ true
          → (o : Option (Value N R)) → ((v : Value N R) → o ≡ some v → has_shape t v ≡ true)
          → IsSound {N = N} {R = R} integer_type (elim o [
            | none ↦ gives none
            | some v ↦ (do s ← as_string v; gives (some (number (js.string_length s))))
          ])
      access t conv none f = tt
      access t conv (some v) f =
          on_string integer_type v _ (convertible_text t v conv (f v refl)) (λ s. refl)
  keyword-IsTyped false u e =
      let (t, found, e') = on_type-some types.value_keyword_type _ u e in
      subst (λ x. IsTyped declared x (get_value_for_value_keyword js false c)) (some-eq t u e')
        (
          agrees.declared_value t found,
          access t c.value_keyword_value (λ v f. agrees.value_keyword t v found f),
        )
    where
      access :
          (t : ValueType) (o : Option (Value N R))
          → ((v : Value N R) → o ≡ some v → has_shape t v ≡ true)
          → IsSound {N = N} {R = R} t (elim o [ none ↦ gives none | some v ↦ gives (some v) ])
      access t none f = tt
      access t (some v) f = f v refl
