-- ===== src/Tests/Types.antt =====
-- Tests of the type inference.
use jayvee.Base.{
  ℕ, ◌≡◌, refl, subst, Bool, true, false, Option, none, some, [], ◌∷◌, String, ok, if◌then◌else◌,
}
use jayvee.Base.Dict.{lookup}
use jayvee.Expressions.{
  string, Expression, reference, variable, collection_literal, unary, uppercase_operator, lazy,
  no_expressions, expression, EvaluationContext,
}
use jayvee.Expressions.Evaluate.{evaluate_expression}
use jayvee.Expressions.Types.{
  ValueType, text_type, collection_type, atomic_type, has_shape, is_convertible_to,
}
use jayvee.Expressions.Types.Computers.{compute_unary_type}
use jayvee.Expressions.Types.Shapes.{IsSound}
use jayvee.Expressions.Types.Declared.{IsDeclared}
use jayvee.Expressions.Inference.{
  TypeContext, infer_expression_type, infer_collection_type, collection_type_of_stacks,
  get_value_type_hierarchy_stack, pick_from, pick_at_level,
}
use jayvee.Expressions.Inference.Literals.{Agrees}
use jayvee.Expressions.Inference.Sound.{evaluate_expression-IsSound}
use jayvee.Tests.Programs.{naturals}

-- A user's type 1 on top of Text, and a variable of it
abbrev declared_types : ℕ → ValueType
declared_types i = text_type

abbrev name_types : TypeContext ℕ
name_types = record {
  variable_types = ("name", atomic_type 1 text_type) ∷ [];
  value_keyword_type = none;
  is_integer_number = λ n. true;
}

abbrev name_values : EvaluationContext ℕ String
name_values = record { variable_values = ("name", string "ada") ∷ []; value_keyword_value = none }

-- `[name, uppercase name]`
abbrev names : Expression ℕ String
names = collection_literal (
    expression (reference (variable "name"))
      (expression (unary uppercase_operator (reference (variable "name"))) no_expressions))

-- `[name, name]`
abbrev same_names : Expression ℕ String
same_names = collection_literal (
    expression (reference (variable "name"))
      (expression (reference (variable "name")) no_expressions))

names_type : infer_expression_type name_types names ≡ ok (some (collection_type text_type))
unfolding infer_expression_type infer_collection_type lookup compute_unary_type is_convertible_to
    get_value_type_hierarchy_stack collection_type_of_stacks pick_from pick_at_level
names_type = refl

same_names_type :
    infer_expression_type name_types same_names
    ≡ ok (some (collection_type (atomic_type 1 text_type)))
unfolding infer_expression_type infer_collection_type lookup compute_unary_type is_convertible_to
    get_value_type_hierarchy_stack collection_type_of_stacks pick_from pick_at_level
same_names_type = refl

found_alone :
    {A : Type 0} (b : Bool) (x y : A)
    → ◌≡◌ {A = Option A} (if b then some x else none) (some y)
    → x ≡ y
found_alone true x y h = cc
found_alone false x y h = cc

agreement : Agrees declared_types name_types name_values
unfolding has_shape lookup
agreement = record {
  variables = λ name t v h k.
      subst (λ x. has_shape x v ≡ true) (found_alone _ _ t h)
        (subst (λ x. has_shape text_type x ≡ true) (found_alone _ _ v k) refl);
  value_keyword = λ t v h k. cc;
  declared_variables =
      λ name t h. subst (IsDeclared declared_types) (found_alone _ _ t h) (refl, tt);
  declared_value = λ t h. cc;
}

evaluate_expression-IsSound_example :
    IsSound (collection_type text_type) (evaluate_expression naturals lazy name_values names)
evaluate_expression-IsSound_example =
    evaluate_expression-IsSound naturals declared_types name_types name_values agreement lazy names
      (collection_type text_type) names_type
