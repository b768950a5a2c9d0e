-- ===== src/Expressions/Inference/Collections.antt =====
-- The type that `inferCollectionType` gives fits every element of the collection.
use mathlib.Core.Bool.{and-eq-true_iff}
use jayvee.Base.{
  ℕ, zero, suc, ◌+◌, ◌-◌, ◌≤◌, ◌<◌, ◌≡◌, refl, ap, ◌∙◌, subst, true, List, [], ◌∷◌, All, All-imp,
  length, get_elem?, Option, none, some, ok, >>=-eq-ok, ok_injective, inl, inr, Bool-cases, arith,
}
use jayvee.Expressions.{Value, collection, Values, no_values, value}
use jayvee.Expressions.Types.{ValueType, collection_type, has_shape}
use jayvee.Expressions.Inference.{
  pick_common_primitive_value_type, are_all_types_equal, types_of_level, minimum_stack_length,
  pick_at_level, pick_common_atomic_value_type, hierarchy_stacks, collection_type_of_stacks,
  infer_collection_type, common_collection_type, last_type, collection_of,
}
use jayvee.Expressions.Inference.Hierarchy.{Fits}
use jayvee.Expressions.Inference.Elements.{
  some-eq, HasTypes, HasStacks, FitsAll, hierarchy_stacks-HasStacks, level-HasTypes,
  pick_from-FitsAll, equal-FitsAll,
}

minimum_stack_length-le :
    (stack : List ValueType) (stacks : List (List ValueType))
    → All (λ s. minimum_stack_length stack stacks ≤ length s) (stack ∷ stacks)
minimum_stack_length-le stack [] = (omega arith, tt)
minimum_stack_length-le stack (next ∷ stacks) = (
  omega arith,
  All-imp _ _ (next ∷ stacks) (λ s l. omega arith) (minimum_stack_length-le next stacks),
)

deep_enough :
    (m : ℕ) (stacks : List (List ValueType))
    → All (λ s. m ≤ length s) stacks
    → All (λ s. 0 < length s) stacks
    → All (λ s. 1 + (m - 1) ≤ length s) stacks
deep_enough m [] h k = tt
deep_enough m (s ∷ ss) (h, hs) (k, ks) = (omega arith, deep_enough m ss hs ks)

module _ (declared : ℕ → ValueType) {N R : Type 0} where
  pick_at_level-FitsAll :
      (left level : ℕ) (stacks : List (List ValueType)) (picked : Option ValueType) (u : ValueType)
      (v : Value N R) (vs : Values N R)
      → pick_at_level left level stacks picked ≡ some u
      → ((t : ValueType) → picked ≡ some t → FitsAll declared t (value v vs))
      → All (λ s. level + left ≤ length s) stacks
      → HasStacks declared stacks (value v vs)
      → FitsAll declared u (value v vs)
  unfolding pick_at_level
  pick_at_level-FitsAll zero level stacks picked u v vs e law deep h = law u e
  pick_at_level-FitsAll (suc left) level stacks picked u v vs e law deep h =
      elim (Bool-cases (are_all_types_equal (types_of_level level stacks))) [
        | inl same ↦
            let fits =
              level-HasTypes declared level stacks (value v vs)
                (All-imp _ _ stacks (λ s l. omega arith) deep) h in
            pick_at_level-FitsAll left (suc level) stacks _ u v vs (rw (pick_at_level, same) at e)
              (λ t first. head-FitsAll t (types_of_level level stacks) first same fits)
              (All-imp _ _ stacks (λ s l. omega arith) deep) h
        | inr other ↦ law u (rw (pick_at_level, other) at e)
      ]
    where
      head-FitsAll :
          (t : ValueType) (ts : List ValueType)
          → get_elem? ts 0 ≡ some t
          → are_all_types_equal ts ≡ true
          → HasTypes declared ts (value v vs)
          → FitsAll declared t (value v vs)
      head-FitsAll t [] first same fits = cc
      head-FitsAll t (w ∷ ts) first same fits =
          subst (λ x. FitsAll declared x (value v vs)) (some-eq w t first)
            (equal-FitsAll declared w ts (value v vs) same fits)

  HasStacks-nonempty :
      (stacks : List (List ValueType)) (vs : Values N R)
      → HasStacks declared stacks vs
      → All (λ s. 0 < length s) stacks
  HasStacks-nonempty [] vs h = tt
  HasStacks-nonempty (s ∷ ss) no_values h = elim h [ ]
  HasStacks-nonempty (s ∷ ss) (value v vs) ((_, l), h) = (l, HasStacks-nonempty ss vs h)

  pick_common_atomic-FitsAll :
      (stacks : List (List ValueType)) (u : ValueType) (v : Value N R) (vs : Values N R)
      → pick_common_atomic_value_type stacks ≡ some u
      → HasStacks declared stacks (value v vs)
      → FitsAll declared u (value v vs)
  pick_common_atomic-FitsAll [] u v vs e h = cc
  pick_common_atomic-FitsAll (s ∷ ss) u v vs e h =
      pick_at_level-FitsAll _ 1 (s ∷ ss) none u v vs e
        (λ t n. let absurd : ◌≡◌ {A = Option ValueType} none (some t) = n in cc)
        (deep_enough _ (s ∷ ss) (minimum_stack_length-le s ss)
          (HasStacks-nonempty (s ∷ ss) (value v vs) h))
        h

  last_type-Fits :
      (ts : List ValueType) (t : ValueType) (v : Value N R)
      → All (Fits declared v) ts
      → last_type ts ≡ some t
      → Fits declared v t
  last_type-Fits [] t v h e = cc
  last_type-Fits (u ∷ []) t v (f, h) e = subst (Fits declared v) (some-eq u t e) f
  last_type-Fits (u ∷ w ∷ ts) t v (f, h) e = last_type-Fits (w ∷ ts) t v h e

  collection_of-Fits :
      (s : List ValueType) (u : ValueType) (v : Value N R)
      → All (Fits declared v) s
      → collection_of (last_type s) ≡ some u
      → Fits declared (collection (value v no_values)) u
  unfolding has_shape
  collection_of-Fits s u v h e = named (last_type s) e (λ t f. last_type-Fits s t v h f)
    where
      named :
          (o : Option ValueType)
          → collection_of o ≡ some u
          → ((t : ValueType) → o ≡ some t → Fits declared v t)
          → Fits declared (collection (value v no_values)) u
      named none e f = cc
      named (some t) e f =
          let (d, s) = f t refl in
          subst (Fits declared (collection (value v no_values))) (some-eq (collection_type t) u e)
            (d, (and-eq-true_iff _ _).1 (s, refl))

  common-Fits :
      (primitive atomic : Option ValueType) (u : ValueType) (vs : Values N R)
      → common_collection_type primitive atomic ≡ some u
      → ((t : ValueType) → primitive ≡ some t → FitsAll declared t vs)
      → ((t : ValueType) → atomic ≡ some t → FitsAll declared t vs)
      → Fits declared (collection vs) u
  unfolding has_shape
  common-Fits none atomic u vs e f g = cc
  common-Fits (some t) none u vs e f g =
      subst (Fits declared (collection vs)) (some-eq (collection_type t) u e) (f t refl)
  common-Fits (some t) (some w) u vs e f g =
      subst (Fits declared (collection vs)) (some-eq (collection_type w) u e) (g w refl)

  pick_primitive-FitsAll :
      (ts : List ValueType) (u : ValueType) (vs : Values N R)
      → pick_common_primitive_value_type ts ≡ ok (some u)
      → HasTypes declared ts vs
      → FitsAll declared u vs
  pick_primitive-FitsAll [] u vs e h = cc
  pick_primitive-FitsAll (t ∷ ts) u no_values e h = elim h [ ]
  pick_primitive-FitsAll (t ∷ ts) u (value v vs) e ((d, s), h) =
      let ((d', all), above) = pick_from-FitsAll declared t ts u vs (ok_injective e) d h in
      (d', (and-eq-true_iff _ _).1 (above v s, all))

  collection_type_of_stacks-Fits :
      (stacks : List (List ValueType)) (u : ValueType) (vs : Values N R)
      → collection_type_of_stacks stacks ≡ ok (some u)
      → HasStacks declared stacks vs
      → Fits declared (collection vs) u
  unfolding collection_type_of_stacks has_shape
  collection_type_of_stacks-Fits [] u no_values e h =
      subst (Fits declared (collection no_values)) (some-eq _ _ (ok_injective e)) (tt, refl)
  collection_type_of_stacks-Fits [] u (value v vs) e h = elim h [ ]
  collection_type_of_stacks-Fits (s ∷ ss) u no_values e h = elim h [ ]
  collection_type_of_stacks-Fits (s ∷ []) u (value v no_values) e ((f, _), h) =
      collection_of-Fits s u v f (ok_injective e)
  collection_type_of_stacks-Fits (s ∷ []) u (value v (value w vs)) e (f, h) = elim h [ ]
  collection_type_of_stacks-Fits (s ∷ s' ∷ ss) u (value v vs) e h =
      let stacks = s ∷ s' ∷ ss in
      let (primitive, picked, e') =
        >>=-eq-ok (pick_common_primitive_value_type (types_of_level 0 stacks)) _ e in
      let types =
        level-HasTypes declared 0 stacks (value v vs) (HasStacks-nonempty stacks (value v vs) h)
          h in
      common-Fits primitive (pick_common_atomic_value_type stacks) u (value v vs) (ok_injective e')
        (λ t found. pick_primitive-FitsAll _ t (value v vs) (picked ∙ ap ok found) types)
        (λ t found. pick_common_atomic-FitsAll stacks t v vs found h)

  -- The type that is inferred for a collection fits it, where those of its elements fit them.
  pub infer_collection_type-Fits :
      (ts : List ValueType) (u : ValueType) (vs : Values N R)
      → infer_collection_type (some ts) ≡ ok (some u)
      → HasTypes declared ts vs
      → Fits declared (collection vs) u
  unfolding infer_collection_type
  infer_collection_type-Fits ts u vs e h =
      let (stacks, found, e') = >>=-eq-ok (hierarchy_stacks ts) _ e in
      collection_type_of_stacks-Fits stacks u vs e'
        (hierarchy_stacks-HasStacks declared ts stacks vs found h)
