-- ===== src/Expressions/Inference/Picked.antt =====
-- The types that the inference picks for a collection are declared, as those of its elements are.
use jayvee.Base.{
  ℕ, zero, suc, ◌≡◌, subst, List, [], ◌∷◌, All, All-append, get_elem?, Option, none, some, Result,
  NoError, ok, >>=-eq-ok, ok_injective, Bool-cases, inl, inr,
}
use jayvee.Expressions.Types.{
  ValueType, boolean_type, text_type, integer_type, decimal_type, regex_type, node_type,
  collection_type, empty_collection_type, atomic_type, rootless_type, is_convertible_to,
}
use jayvee.Expressions.Types.Declared.{IsDeclared}
use jayvee.Expressions.Inference.{
  pick_from, pick_common_primitive_value_type, are_all_types_equal, types_of_level, pick_at_level,
  pick_common_atomic_value_type, hierarchy_stacks, collection_type_of_stacks, infer_collection_type,
  common_collection_type, get_value_type_hierarchy_stack, last_type, collection_of,
}

module _ (declared : ℕ → ValueType) where
  abbrev pub AreDeclared : List ValueType → Type 0
  AreDeclared = All (IsDeclared declared)

  abbrev pub OptionDeclared : Option ValueType → Type 0
  OptionDeclared none = Unit
  OptionDeclared (some t) = IsDeclared declared t

  single-AreDeclared :
      (t : ValueType) (stack : List ValueType)
      → IsDeclared declared t
      → ◌≡◌ {A = Result NoError (List ValueType)} (ok (t ∷ [])) (ok stack)
      → AreDeclared stack
  single-AreDeclared t stack d e = subst AreDeclared (ok_injective e) (d, tt)

  stack-AreDeclared :
      (t : ValueType) (stack : List ValueType)
      → IsDeclared declared t
      → get_value_type_hierarchy_stack t ≡ ok stack
      → AreDeclared stack
  unfolding get_value_type_hierarchy_stack
  stack-AreDeclared (atomic_type i t) stack (e, d) s =
      let (below, found, s') = >>=-eq-ok (get_value_type_hierarchy_stack t) _ s in
      subst AreDeclared (ok_injective s') (
        All-append (IsDeclared declared) below (atomic_type i t ∷ [])
          (stack-AreDeclared t below d found) ((e, d), tt))
  stack-AreDeclared (rootless_type i) stack d s = cc
  stack-AreDeclared boolean_type stack d s = single-AreDeclared boolean_type stack d s
  stack-AreDeclared text_type stack d s = single-AreDeclared text_type stack d s
  stack-AreDeclared integer_type stack d s = single-AreDeclared integer_type stack d s
  stack-AreDeclared decimal_type stack d s = single-AreDeclared decimal_type stack d s
  stack-AreDeclared regex_type stack d s = single-AreDeclared regex_type stack d s
  stack-AreDeclared (node_type k) stack d s = single-AreDeclared (node_type k) stack d s
  stack-AreDeclared (collection_type t) stack d s = single-AreDeclared (collection_type t) stack d s
  stack-AreDeclared empty_collection_type stack d s =
      single-AreDeclared empty_collection_type stack d s

  stacks-AreDeclared :
      (ts : List ValueType) (stacks : List (List ValueType))
      → AreDeclared ts
      → hierarchy_stacks ts ≡ ok stacks
      → All AreDeclared stacks
  stacks-AreDeclared [] stacks d e = subst (All AreDeclared) (ok_injective e) tt
  stacks-AreDeclared (t ∷ ts) stacks (d, ds) e =
      let (stack, found, e') = >>=-eq-ok (get_value_type_hierarchy_stack t) _ e in
      let (others, later, e'') = >>=-eq-ok (hierarchy_stacks ts) _ e' in
      subst (All AreDeclared) (ok_injective e'')
        (stack-AreDeclared t stack d found, stacks-AreDeclared ts others ds later)

  element-OptionDeclared :
      (ts : List ValueType) (i : ℕ) → AreDeclared ts → OptionDeclared (get_elem? ts i)
  element-OptionDeclared [] i d = tt
  element-OptionDeclared (t ∷ ts) zero (d, ds) = d
  element-OptionDeclared (t ∷ ts) (suc i) (d, ds) = element-OptionDeclared ts i ds

  level-AreDeclared :
      (level : ℕ) (stacks : List (List ValueType))
      → All AreDeclared stacks
      → AreDeclared (types_of_level level stacks)
  level-AreDeclared level [] d = tt
  level-AreDeclared level (s ∷ ss) (d, ds) =
      put (get_elem? s level) (element-OptionDeclared s level d) (level-AreDeclared level ss ds)
    where
      put :
          (o : Option ValueType)
          → OptionDeclared o
          → AreDeclared (types_of_level level ss)
          → AreDeclared
              (elim o [ none ↦ types_of_level level ss | some t ↦ t ∷ types_of_level level ss ])
      put none h others = others
      put (some t) h others = (h, others)

  pick_from-OptionDeclared :
      (r : ValueType) (ts : List ValueType)
      → IsDeclared declared r
      → AreDeclared ts
      → OptionDeclared (pick_from r ts)
  unfolding pick_from
  pick_from-OptionDeclared r [] d ds = d
  pick_from-OptionDeclared r (t ∷ ts) d (dt, ds) = elim (Bool-cases (is_convertible_to t r)) [
    | inl down ↦ rw down (pick_from-OptionDeclared r ts d ds)
    | inr not_down ↦ elim (Bool-cases (is_convertible_to r t)) [
      | inl up ↦ rw (not_down, up) (pick_from-OptionDeclared t ts dt ds)
      | inr not_up ↦ rw (not_down, not_up) tt
    ]
  ]

  pick_at_level-OptionDeclared :
      (left level : ℕ) (stacks : List (List ValueType)) (picked : Option ValueType)
      → All AreDeclared stacks
      → OptionDeclared picked
      → OptionDeclared (pick_at_level left level stacks picked)
  unfolding pick_at_level
  pick_at_level-OptionDeclared zero level stacks picked d h = h
  pick_at_level-OptionDeclared (suc left) level stacks picked d h =
      elim (Bool-cases (are_all_types_equal (types_of_level level stacks))) [
        | inl same ↦ rw same (
            pick_at_level-OptionDeclared left (suc level) stacks _ d (
              element-OptionDeclared (types_of_level level stacks) 0
                (level-AreDeclared level stacks d)))
        | inr other ↦ rw other h
      ]

  last_type-OptionDeclared :
      (ts : List ValueType) → AreDeclared ts → OptionDeclared (collection_of (last_type ts))
  last_type-OptionDeclared [] d = tt
  last_type-OptionDeclared (t ∷ []) (d, ds) = d
  last_type-OptionDeclared (t ∷ u ∷ ts) (d, ds) = last_type-OptionDeclared (u ∷ ts) ds

  common-OptionDeclared :
      (primitive atomic : Option ValueType)
      → OptionDeclared primitive
      → OptionDeclared atomic
      → OptionDeclared (common_collection_type primitive atomic)
  common-OptionDeclared none atomic d d' = tt
  common-OptionDeclared (some t) none d d' = d
  common-OptionDeclared (some t) (some u) d d' = d'

  primitive-OptionDeclared :
      (ts : List ValueType) (o : Option ValueType)
      → AreDeclared ts
      → pick_common_primitive_value_type ts ≡ ok o
      → OptionDeclared o
  primitive-OptionDeclared [] o d e = cc
  primitive-OptionDeclared (t ∷ ts) o (d, ds) e =
      subst OptionDeclared (ok_injective e) (pick_from-OptionDeclared t ts d ds)

  stacks-OptionDeclared :
      (stacks : List (List ValueType)) (o : Option ValueType)
      → All AreDeclared stacks
      → collection_type_of_stacks stacks ≡ ok o
      → OptionDeclared o
  unfolding collection_type_of_stacks
  stacks-OptionDeclared [] o d e = subst OptionDeclared (ok_injective e) tt
  stacks-OptionDeclared (s ∷ []) o (d, ds) e =
      subst OptionDeclared (ok_injective e) (last_type-OptionDeclared s d)
  stacks-OptionDeclared (s ∷ s' ∷ ss) o d e =
      let stacks = s ∷ s' ∷ ss in
      let (primitive, picked, e') =
        >>=-eq-ok (pick_common_primitive_value_type (types_of_level 0 stacks)) _ e in
      subst OptionDeclared (ok_injective e') (
        common-OptionDeclared primitive (pick_common_atomic_value_type stacks)
          (primitive-OptionDeclared _ primitive (level-AreDeclared 0 stacks d) picked)
          (pick_at_level-OptionDeclared _ 1 stacks none d tt))

  pub collection-IsDeclared :
      (ts : List ValueType) (u : ValueType)
      → infer_collection_type (some ts) ≡ ok (some u)
      → AreDeclared ts
      → IsDeclared declared u
  unfolding infer_collection_type
  collection-IsDeclared ts u e d =
      let (stacks, found, e') = >>=-eq-ok (hierarchy_stacks ts) _ e in
      stacks-OptionDeclared stacks (some u) (stacks-AreDeclared ts stacks d found) e'
