-- ===== src/Expressions/Inference/Hierarchy.antt =====
-- Values and the types above theirs: a value of a type has the shape of the types that the type
-- converts to, and of its hierarchy stack.
use jayvee.Base.{
  ℕ, ◌≡◌, refl, sym, subst, true, List, [], ◌∷◌, ◌++◌, All, All-append, length, length-append, some,
  ◌<◌, arith, Result, NoError, ok, >>=-eq-ok, ok_injective, inl, inr, Bool-cases,
}
use jayvee.Expressions.{Value, boolean, number, string, regex, node, collection, no_values, value}
use jayvee.Expressions.Types.{
  ValueType, boolean_type, text_type, integer_type, decimal_type, regex_type, node_type,
  collection_type, empty_collection_type, atomic_type, rootless_type, equals, is_convertible_to,
  has_shape,
}
use jayvee.Expressions.Inference.{get_value_type_hierarchy_stack, last_type}
use jayvee.Expressions.Types.Declared.{IsDeclared, equals-eq, is_decimal-eq, is_collection-eq}

-- The empty collection is one of every element type.
empty-has_shape :
    {N R : Type 0} (t : ValueType) (v : Value N R)
    → has_shape empty_collection_type v ≡ true
    → has_shape (collection_type t) v ≡ true
unfolding has_shape
empty-has_shape t (collection no_values) h = refl
empty-has_shape t (collection (value w ws)) h = cc
empty-has_shape t (boolean b) h = cc
empty-has_shape t (number n) h = cc
empty-has_shape t (string w) h = cc
empty-has_shape t (regex r) h = cc
empty-has_shape t (node k i) h = cc

last_type-append : (ts : List ValueType) (t : ValueType) → last_type (ts ++ t ∷ []) ≡ some t
last_type-append [] t = refl
last_type-append (u ∷ []) t = refl
last_type-append (u ∷ w ∷ ts) t = last_type-append (w ∷ ts) t

module _ (declared : ℕ → ValueType) where
  module _ {N R : Type 0} where
    -- A value of a type has the shape of every type that the type converts to.
    pub convertible-has_shape :
        (t u : ValueType) (v : Value N R)
        → IsDeclared declared t
        → IsDeclared declared u
        → is_convertible_to t u ≡ true
        → has_shape t v ≡ true
        → has_shape u v ≡ true
    unfolding is_convertible_to has_shape
    convertible-has_shape integer_type u v d d' c h = elim (Bool-cases (equals u integer_type)) [
      | inl same ↦
          subst (λ x. has_shape x v ≡ true) (sym (equals-eq declared u integer_type d' tt same)) h
      | inr other ↦ subst (λ x. has_shape x v ≡ true) (sym (is_decimal-eq u (rw other at c))) h
    ]
    convertible-has_shape empty_collection_type u v d d' c h =
        elim (Bool-cases (equals u empty_collection_type)) [
          | inl same ↦
              subst (λ x. has_shape x v ≡ true)
                (sym (equals-eq declared u empty_collection_type d' tt same)) h
          | inr other ↦
              let (t, e) = is_collection-eq u (rw other at c) in
              subst (λ x. has_shape x v ≡ true) (sym e) (empty-has_shape t v h)
        ]
    convertible-has_shape (atomic_type i t) u v (e, d) d' c h =
        elim (Bool-cases (equals u (atomic_type i t))) [
          | inl same ↦
              subst (λ x. has_shape x v ≡ true)
                (sym (equals-eq declared u (atomic_type i t) d' (e, d) same)) h
          | inr other ↦ convertible-has_shape t u v d d' (rw other at c) h
        ]
    convertible-has_shape boolean_type u v d d' c h =
        subst (λ x. has_shape x v ≡ true) (sym (equals-eq declared u boolean_type d' d c)) h
    convertible-has_shape text_type u v d d' c h =
        subst (λ x. has_shape x v ≡ true) (sym (equals-eq declared u text_type d' d c)) h
    convertible-has_shape decimal_type u v d d' c h =
        subst (λ x. has_shape x v ≡ true) (sym (equals-eq declared u decimal_type d' d c)) h
    convertible-has_shape regex_type u v d d' c h =
        subst (λ x. has_shape x v ≡ true) (sym (equals-eq declared u regex_type d' d c)) h
    convertible-has_shape (node_type k) u v d d' c h =
        subst (λ x. has_shape x v ≡ true) (sym (equals-eq declared u (node_type k) d' d c)) h
    convertible-has_shape (collection_type t) u v d d' c h =
        subst (λ x. has_shape x v ≡ true) (sym (equals-eq declared u (collection_type t) d' d c)) h
    convertible-has_shape (rootless_type i) u v d d' c h =
        subst (λ x. has_shape x v ≡ true) (sym (equals-eq declared u (rootless_type i) d' d c)) h

    -- A type with its values, seen from the value: it is declared and has the value's shape.
    abbrev pub Fits : Value N R → ValueType → Type 0
    Fits v u = IsDeclared declared u × (has_shape u v ≡ true)

    single-Fits :
        (t : ValueType) (stack : List ValueType) (v : Value N R)
        → IsDeclared declared t
        → ◌≡◌ {A = Result NoError (List ValueType)} (ok (t ∷ [])) (ok stack)
        → has_shape t v ≡ true
        → All (Fits v) stack × (last_type stack ≡ some t) × (0 < length stack)
    single-Fits t stack v d e h =
        subst (λ s. All (Fits v) s × (last_type s ≡ some t) × (0 < length s)) (ok_injective e)
          (((d, h), tt), refl, omega arith)

    -- Every type of the hierarchy stack of a type fits the values of the type, which is the last.
    pub stack-Fits :
        (t : ValueType) (stack : List ValueType) (v : Value N R)
        → IsDeclared declared t
        → get_value_type_hierarchy_stack t ≡ ok stack
        → has_shape t v ≡ true
        → All (Fits v) stack × (last_type stack ≡ some t) × (0 < length stack)
    unfolding get_value_type_hierarchy_stack has_shape
    stack-Fits (atomic_type i t) stack v (e, d) s h =
        let (below, found, s') = >>=-eq-ok (get_value_type_hierarchy_stack t) _ s in
        let (fits, _, _) = stack-Fits t below v d found h in
        subst (λ x. All (Fits v) x × (last_type x ≡ some (atomic_type i t)) × (0 < length x))
          (ok_injective s')
          (
            All-append (Fits v) below (atomic_type i t ∷ []) fits (((e, d), h), tt),
            last_type-append below (atomic_type i t),
            omega (arith, length-append below (atomic_type i t ∷ [])),
          )
    stack-Fits (rootless_type i) stack v d s h = cc
    stack-Fits boolean_type stack v d s h = single-Fits boolean_type stack v d s h
    stack-Fits text_type stack v d s h = single-Fits text_type stack v d s h
    stack-Fits integer_type stack v d s h = single-Fits integer_type stack v d s h
    stack-Fits decimal_type stack v d s h = single-Fits decimal_type stack v d s h
    stack-Fits regex_type stack v d s h = single-Fits regex_type stack v d s h
    stack-Fits (node_type k) stack v d s h = single-Fits (node_type k) stack v d s h
    stack-Fits (collection_type t) stack v d s h = single-Fits (collection_type t) stack v d s h
    stack-Fits empty_collection_type stack v d s h = single-Fits empty_collection_type stack v d s h
