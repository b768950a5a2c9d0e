-- ===== src/Expressions/Inference/Elements.antt =====
-- The types of the elements of a collection, their hierarchy stacks, and the types that
-- `pickCommonPrimitiveValuetype` and `areAllTypesEqual` find.
use mathlib.Core.Bool.{and-eq-true_iff}
use jayvee.Base.{
  ℕ, zero, suc, ◌<◌, ◌≡◌, refl, sym, subst, true, false, List, [], ◌∷◌, All, length, get_elem?,
  get_elem?-some, Option, none, some, ok, >>=-eq-ok, ok_injective, inl, inr, Bool-cases,
}
use jayvee.Expressions.{Value, Values, no_values, value}
use jayvee.Expressions.Types.{ValueType, equals, is_convertible_to, has_shape, every}
use jayvee.Expressions.Types.Declared.{IsDeclared, equals-eq}
use jayvee.Expressions.Inference.{
  pick_from, are_all_types_equal, types_of_level, hierarchy_stacks, get_value_type_hierarchy_stack,
}
use jayvee.Expressions.Inference.Hierarchy.{Fits, stack-Fits, convertible-has_shape}

pub some-eq : {A : Type 0} (x y : A) → ◌≡◌ {A = Option A} (some x) (some y) → x ≡ y
some-eq x y h = cc

module _ (declared : ℕ → ValueType) {N R : Type 0} where
  -- The types fit the values one by one.
  abbrev pub HasTypes : List ValueType → Values N R → Type 0
  HasTypes [] no_values = Unit
  HasTypes (t ∷ ts) (value v vs) = Fits declared v t × HasTypes ts vs
  HasTypes _ _ = ⊥

  -- Every type of a stack fits its value, and a stack is not empty.
  abbrev pub HasStacks : List (List ValueType) → Values N R → Type 0
  HasStacks [] no_values = Unit
  HasStacks (s ∷ ss) (value v vs) = (All (Fits declared v) s × (0 < length s)) × HasStacks ss vs
  HasStacks _ _ = ⊥

  -- The type is declared, and every value has its shape.
  abbrev pub FitsAll : ValueType → Values N R → Type 0
  FitsAll t vs = IsDeclared declared t × (every (has_shape t) vs ≡ true)

  pub hierarchy_stacks-HasStacks :
      (ts : List ValueType) (stacks : List (List ValueType)) (vs : Values N R)
      → hierarchy_stacks ts ≡ ok stacks
      → HasTypes ts vs
      → HasStacks stacks vs
  hierarchy_stacks-HasStacks [] stacks no_values e h =
      subst (λ s. HasStacks s no_values) (ok_injective e) tt
  hierarchy_stacks-HasStacks [] stacks (value v vs) e h = elim h [ ]
  hierarchy_stacks-HasStacks (t ∷ ts) stacks no_values e h = elim h [ ]
  hierarchy_stacks-HasStacks (t ∷ ts) stacks (value v vs) e ((d, s), h) =
      let (stack, found, e') = >>=-eq-ok (get_value_type_hierarchy_stack t) _ e in
      let (others, later, e'') = >>=-eq-ok (hierarchy_stacks ts) _ e' in
      let (fits, _, some_type) = stack-Fits declared t stack v d found s in
      subst (λ x. HasStacks x (value v vs)) (ok_injective e'')
        ((fits, some_type), hierarchy_stacks-HasStacks ts others vs later h)

  pub level-HasTypes :
      (level : ℕ) (stacks : List (List ValueType)) (vs : Values N R)
      → All (λ s. level < length s) stacks
      → HasStacks stacks vs
      → HasTypes (types_of_level level stacks) vs
  level-HasTypes level [] no_values deep h = tt
  level-HasTypes level [] (value v vs) deep h = elim h [ ]
  level-HasTypes level (s ∷ ss) no_values deep h = elim h [ ]
  level-HasTypes level (s ∷ ss) (value v vs) (l, deep) ((fits, _), h) =
      let (t, found) = get_elem?-some s level l in
      subst
        (λ o.
          HasTypes
            (elim o [ none ↦ types_of_level level ss | some u ↦ u ∷ types_of_level level ss ])
            (value v vs))
        (sym found) (get_elem?-All s level t fits found, level-HasTypes level ss vs deep h)
    where
      get_elem?-All :
          (ts : List ValueType) (i : ℕ) (t : ValueType)
          → All (Fits declared v) ts
          → get_elem? ts i ≡ some t
          → Fits declared v t
      get_elem?-All [] i t f e = cc
      get_elem?-All (u ∷ ts) zero t (f, fs) e = subst (Fits declared v) (some-eq u t e) f
      get_elem?-All (u ∷ ts) (suc i) t (f, fs) e = get_elem?-All ts i t fs e

  pub every-imp :
      (t u : ValueType) (vs : Values N R)
      → ((v : Value N R) → has_shape t v ≡ true → has_shape u v ≡ true)
      → every (has_shape t) vs ≡ true
      → every (has_shape u) vs ≡ true
  every-imp t u no_values f h = refl
  every-imp t u (value v vs) f h =
      let (p, q) = (and-eq-true_iff _ _).0 h in
      (and-eq-true_iff _ _).1 (f v p, every-imp t u vs f q)

  -- The type that is picked from types that fit the values is one that they convert to.
  pub pick_from-FitsAll :
      (r : ValueType) (ts : List ValueType) (picked : ValueType) (vs : Values N R)
      → pick_from r ts ≡ some picked
      → IsDeclared declared r
      → HasTypes ts vs
      → FitsAll picked vs × ((v : Value N R) → has_shape r v ≡ true → has_shape picked v ≡ true)
  unfolding pick_from
  pick_from-FitsAll r [] picked (value v vs) e d h = elim h [ ]
  pick_from-FitsAll r (t ∷ ts) picked no_values e d h = elim h [ ]
  pick_from-FitsAll r [] picked no_values e d h =
      let same = some-eq r picked e in
      ((subst (IsDeclared declared) same d, refl), λ v s. subst (λ x. has_shape x v ≡ true) same s)
  pick_from-FitsAll r (t ∷ ts) picked (value v vs) e d ((dt, s), h) =
      elim (Bool-cases (is_convertible_to t r)) [
        | inl down ↦
            let e' : pick_from r ts ≡ some picked = rw (pick_from, down) at e in
            let ((d', all), above) = pick_from-FitsAll r ts picked vs e' d h in
            let s' = above v (convertible-has_shape declared t r v dt d down s) in
            ((d', (and-eq-true_iff _ _).1 (s', all)), above)
        | inr not_down ↦ elim (Bool-cases (is_convertible_to r t)) [
          | inl up ↦
              let e' : pick_from t ts ≡ some picked = rw (pick_from, not_down, up) at e in
              let ((d', all), above) = pick_from-FitsAll t ts picked vs e' dt h in
              (
                (d', (and-eq-true_iff _ _).1 (above v s, all)),
                λ w sw. above w (convertible-has_shape declared r t w d dt up sw),
              )
          | inr not_up ↦
              let absurd : ◌≡◌ {A = Option ValueType} none (some picked) =
                rw (pick_from, not_down, not_up) at e in
              cc
        ]
      ]

  -- Where all types of the level are equal, the first of them fits all values.
  pub equal-FitsAll :
      (t : ValueType) (ts : List ValueType) (vs : Values N R)
      → are_all_types_equal (t ∷ ts) ≡ true
      → HasTypes (t ∷ ts) vs
      → FitsAll t vs
  equal-FitsAll t ts no_values e h = elim h [ ]
  equal-FitsAll t [] (value v no_values) e ((d, s), h) = (d, (and-eq-true_iff _ _).1 (s, refl))
  equal-FitsAll t [] (value v (value w vs)) e ((d, s), h) = elim h [ ]
  equal-FitsAll t (u ∷ ts) (value v no_values) e ((d, s), h) = elim h [ ]
  equal-FitsAll t (u ∷ ts) (value v (value w vs)) e ((d, s), h) = elim (Bool-cases (equals t u)) [
    | inl same ↦
        let e' : are_all_types_equal (u ∷ ts) ≡ true = rw same at e in
        let (d', all) = equal-FitsAll u ts (value w vs) e' h in
        let eq = equals-eq declared t u d d' same in
        (
          d,
          (and-eq-true_iff _ _).1
              (s, subst (λ x. every (has_shape x) (value w vs) ≡ true) (sym eq) all),
        )
    | inr other ↦ let absurd : false ≡ true = rw other at e in cc
  ]
