-- ===== src/Expressions/Inference/Sound.antt =====
-- Inference and evaluation: an expression that has a type fails no guard.
use jayvee.Base.{
  ℕ, ◌≡◌, refl, sym, ap, ◌∙◌, subst, Option, none, some, List, [], ◌∷◌, ok, >>=-eq-ok, ok_injective,
}
use jayvee.Expressions.{
  Outcome, gives, guard_fails, error_thrown, ◌>>=◌, Value, Values, no_values, Expression, missing,
  reference, value_keyword, literal, collection_literal, unary, binary, short_circuit, replace,
  Expressions, no_expressions, expression, Strategy, Runtime, EvaluationContext,
}
use jayvee.Expressions.Evaluate.{
  evaluate_expression, evaluate_elements, defined_element, as_collection,
}
use jayvee.Expressions.Types.{ValueType}
use jayvee.Expressions.Types.Computers.{
  compute_unary_type, compute_binary_type, compute_short_circuit_type, compute_replace_type,
}
use jayvee.Expressions.Types.Shapes.{IsSound}
use jayvee.Expressions.Inference.{
  TypeContext, infer_expression_type, infer_element_types, infer_collection_type,
}
use jayvee.Expressions.Inference.Elements.{some-eq}
use jayvee.Expressions.Inference.Collections.{infer_collection_type-Fits}
use jayvee.Expressions.Inference.Steps.{
  unary-IsDeclared, binary-IsDeclared, short_circuit-IsDeclared, replace-IsDeclared,
  unary_step-IsSound, binary_step-IsSound, short_circuit_step-IsSound, replace_step-IsSound,
}
use jayvee.Expressions.Inference.Picked.{AreDeclared, collection-IsDeclared}
use jayvee.Expressions.Inference.Literals.{
  Agrees, IsTyped, AreTyped, on_type-some, defined_type-some, literal-IsTyped, reference-IsTyped,
  keyword-IsTyped,
}

infer_collection_type-some :
    (o : Option (List ValueType)) (u : ValueType)
    → infer_collection_type o ≡ ok (some u)
    → (ts : List ValueType) × (o ≡ some ts)
unfolding infer_collection_type
infer_collection_type-some none u e =
    let absurd : ◌≡◌ {A = Option ValueType} none (some u) = ok_injective e in cc
infer_collection_type-some (some ts) u e = (ts, refl)

module _ {N R : Type 0} (js : Runtime N R) (declared : ℕ → ValueType) (types : TypeContext N)
    (c : EvaluationContext N R) (agrees : Agrees declared types c) (strategy : Strategy) where
  elements-AreTyped :
      (t : ValueType) (ts : List ValueType) (m : Outcome (Option (Value N R)))
      (rest : Outcome (Option (Values N R)))
      → IsTyped declared t m
      → AreTyped declared ts rest
      → AreTyped declared (t ∷ ts) (m >>= (λ v. rest >>= (λ vs. gives (defined_element v vs))))
  elements-AreTyped t ts (gives none) (gives vs) h k = tt
  elements-AreTyped t ts (gives (some v)) (gives none) h k = tt
  elements-AreTyped t ts (gives (some v)) (gives (some vs)) h k = (h, k)
  elements-AreTyped t ts (gives v) guard_fails h k = k
  elements-AreTyped t ts (gives v) error_thrown h k = tt
  elements-AreTyped t ts guard_fails rest (d, h) k = h
  elements-AreTyped t ts error_thrown rest h k = tt

  collection-IsSound :
      (ts : List ValueType) (u : ValueType) (m : Outcome (Option (Values N R)))
      → infer_collection_type (some ts) ≡ ok (some u)
      → AreTyped declared ts m
      → IsSound u (m >>= (λ vs. gives (as_collection vs)))
  collection-IsSound ts u (gives none) e h = tt
  collection-IsSound ts u (gives (some vs)) e h =
      (infer_collection_type-Fits declared ts u vs e h).1
  collection-IsSound ts u guard_fails e h = h
  collection-IsSound ts u error_thrown e h = tt

  abbrev AreResult : Outcome (Option (Values N R)) → List ValueType → Type 0
  AreResult m ts = AreDeclared declared ts × AreTyped declared ts m

  mutual
    unfolding infer_expression_type evaluate_expression

    expression-IsTyped :
        (e : Expression N R) (u : ValueType)
        → infer_expression_type types e ≡ ok (some u)
        → IsTyped declared u (evaluate_expression js strategy c e)
    expression-IsTyped missing u h =
        let absurd : ◌≡◌ {A = Option ValueType} none (some u) = ok_injective h in cc
    expression-IsTyped (reference r) u h =
        reference-IsTyped js declared types c agrees strategy r u (ok_injective h)
    expression-IsTyped (value_keyword length_access) u h =
        keyword-IsTyped js declared types c agrees strategy length_access u (ok_injective h)
    expression-IsTyped (literal v) u h = literal-IsTyped declared types v u (ok_injective h)
    expression-IsTyped (collection_literal es) u h =
        let (o, found, h') = >>=-eq-ok (infer_element_types types es) infer_collection_type h in
        let (ts, some_types) = infer_collection_type-some o u h' in
        let (ds, typed) = elements-HasTypes es ts (found ∙ ap ok some_types) in
        let inferred = sym (ap infer_collection_type some_types) ∙ h' in
        (collection-IsDeclared declared ts u inferred ds, collection-IsSound ts u _ inferred typed)
    expression-IsTyped (unary op e) u h =
        let (o, found, h') = >>=-eq-ok (infer_expression_type types e) _ h in
        let (t, some_type, computed) = on_type-some o (compute_unary_type op) u (ok_injective h') in
        let (d, sound) = expression-IsTyped e t (found ∙ ap ok some_type) in
        (unary-IsDeclared declared op t u computed d, unary_step-IsSound js op t u _ computed sound)
    expression-IsTyped (binary op left right) u h =
        let (o, found, h') = >>=-eq-ok (infer_expression_type types left) _ h in
        let (o', found', h'') = >>=-eq-ok (infer_expression_type types right) _ h' in
        let (t, some_type, on_right) = on_type-some o _ u (ok_injective h'') in
        let (t', some_type', computed) = on_type-some o' (compute_binary_type op t) u on_right in
        let (_, sound) = expression-IsTyped left t (found ∙ ap ok some_type) in
        let (_, sound') = expression-IsTyped right t' (found' ∙ ap ok some_type') in
        (
          binary-IsDeclared declared op t t' u computed,
          binary_step-IsSound js strategy op t t' u _ _ computed sound sound',
        )
    expression-IsTyped (short_circuit op left right) u h =
        let (o, found, h') = >>=-eq-ok (infer_expression_type types left) _ h in
        let (o', found', h'') = >>=-eq-ok (infer_expression_type types right) _ h' in
        let (t, some_type, on_right) = on_type-some o _ u (ok_injective h'') in
        let (t', some_type', computed) =
          on_type-some o' (compute_short_circuit_type t) u on_right in
        let (_, sound) = expression-IsTyped left t (found ∙ ap ok some_type) in
        let (_, sound') = expression-IsTyped right t' (found' ∙ ap ok some_type') in
        (
          short_circuit-IsDeclared declared t t' u computed,
          short_circuit_step-IsSound js strategy op t t' u _ _ computed sound sound',
        )
    expression-IsTyped (replace first second third) u h =
        let (o₁, found₁, h₁) = >>=-eq-ok (infer_expression_type types first) _ h in
        let (o₂, found₂, h₂) = >>=-eq-ok (infer_expression_type types second) _ h₁ in
        let (o₃, found₃, h₃) = >>=-eq-ok (infer_expression_type types third) _ h₂ in
        let (t₁, some_type₁, on_second) = on_type-some o₁ _ u (ok_injective h₃) in
        let (t₂, some_type₂, on_third) = on_type-some o₂ _ u on_second in
        let (t₃, some_type₃, computed) = on_type-some o₃ (compute_replace_type t₁ t₂) u on_third in
        let (_, sound₁) = expression-IsTyped first t₁ (found₁ ∙ ap ok some_type₁) in
        let (_, sound₂) = expression-IsTyped second t₂ (found₂ ∙ ap ok some_type₂) in
        let (_, sound₃) = expression-IsTyped third t₃ (found₃ ∙ ap ok some_type₃) in
        (
          replace-IsDeclared declared t₁ t₂ t₃ u computed,
          replace_step-IsSound js strategy t₁ t₂ t₃ u _ _ _ computed sound₁ sound₂ sound₃,
        )

    elements-HasTypes :
        (es : Expressions N R) (ts : List ValueType)
        → infer_element_types types es ≡ ok (some ts)
        → AreDeclared declared ts × AreTyped declared ts (evaluate_elements js strategy c es)
    elements-HasTypes no_expressions ts h =
        subst
          (λ x.
            AreDeclared declared x × AreTyped {N = N} {R = R} declared x (gives (some no_values)))
          (some-eq [] ts (ok_injective h)) (tt, tt)
    elements-HasTypes (expression e es) us h =
        let (o, found, h') = >>=-eq-ok (infer_expression_type types e) _ h in
        let (os, found', h'') = >>=-eq-ok (infer_element_types types es) _ h' in
        let (t, ts, some_type, some_types, same) = defined_type-some o os us (ok_injective h'') in
        let head = expression-IsTyped e t (found ∙ ap ok some_type) in
        let (ds, typed) = elements-HasTypes es ts (found' ∙ ap ok some_types) in
        subst (AreResult (evaluate_elements js strategy c (expression e es))) (sym same)
          ((head.0, ds), elements-AreTyped t ts _ _ head typed)

  -- Where an expression has a type u, by types of the variables and of the value keyword that their
  -- values in the evaluation context agree with, its evaluation with either strategy fails no guard:
  -- it gives undefined, throws another error, or gives a value that has the shape of u. Every
  -- atomic type in the context stands with the supertype that its definition declares.
  pub evaluate_expression-IsSound :
      (e : Expression N R) (u : ValueType)
      → infer_expression_type types e ≡ ok (some u)
      → IsSound u (evaluate_expression js strategy c e)
  evaluate_expression-IsSound e u h = (expression-IsTyped e u h).1
