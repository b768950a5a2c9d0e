-- ===== src/Expressions/Inference.antt =====
-- type-inference.ts and wrappers/util/value-type-util.ts: the type of an expression by the types of
-- its variables, or undefined (`none`). An assertion on a supertype that is missing throws. The
-- messages that a validation context collects are left out.
pub mod Hierarchy
pub mod Elements
pub mod Collections
pub mod Picked
pub mod Steps
pub mod Literals
pub mod Sound
use jayvee.Base.{
  ℕ, zero, suc, ◌-◌, Bool, true, false, not, Option, none, some, List, [], ◌∷◌, ◌++◌, map, length,
  min, get_elem?, if◌then◌else◌, Result, NoError, ok, err, throws, ◌>>=◌, ◌>>◌, assert, defined,
  String,
}
use jayvee.Base.Dict.{lookup}
use jayvee.Expressions.{
  Value, boolean, number, string, regex, node, collection, NodeKind, cell_range_node,
  value_type_assignment_node, constraint_node, transform_node, Reference, unresolved, definition,
  variable, Expression, missing, reference, value_keyword, literal, collection_literal, unary,
  binary, short_circuit, replace, Expressions, no_expressions, expression,
}
use jayvee.Expressions.Types.{
  ValueType, boolean_type, text_type, integer_type, decimal_type, regex_type, node_type,
  collection_type, empty_collection_type, atomic_type, rootless_type, equals, is_convertible_to,
}
use jayvee.Expressions.Types.Computers.{
  compute_unary_type, compute_binary_type, compute_short_circuit_type, compute_replace_type,
}

-- `getValuetypeHierarchyStack`: from the primitive type down to the type itself
unfoldable pub get_value_type_hierarchy_stack : ValueType → Result NoError (List ValueType)
get_value_type_hierarchy_stack (atomic_type i t) = do
  stack ← get_value_type_hierarchy_stack t
  ok (stack ++ atomic_type i t ∷ [])
get_value_type_hierarchy_stack (rootless_type i) = throws
get_value_type_hierarchy_stack t = ok (t ∷ [])

-- The loop of `pickCommonPrimitiveValuetype`, and the whole of it
unfoldable pub pick_from : ValueType → List ValueType → Option ValueType
pick_from resulting_type [] = some resulting_type
pick_from resulting_type (current_type ∷ types) =
    let kept = pick_from resulting_type types in
    let replaced = pick_from current_type types in
    if is_convertible_to current_type resulting_type
    then kept
    else (if is_convertible_to resulting_type current_type then replaced else none)

abbrev pub pick_common_primitive_value_type : List ValueType → Result NoError (Option ValueType)
pick_common_primitive_value_type [] = throws
pick_common_primitive_value_type (t ∷ ts) = ok (pick_from t ts)

-- `areAllTypesEqual`
abbrev pub are_all_types_equal : List ValueType → Bool
are_all_types_equal [] = true
are_all_types_equal (t ∷ []) = true
are_all_types_equal (current ∷ after_current ∷ types) =
    if equals current after_current then are_all_types_equal (after_current ∷ types) else false

-- The types `stack[stackLevel]` of the stacks that are deep enough
abbrev pub types_of_level : ℕ → List (List ValueType) → List ValueType
types_of_level level [] = []
types_of_level level (stack ∷ stacks) = elim (get_elem? stack level) [
  | none ↦ types_of_level level stacks
  | some t ↦ t ∷ types_of_level level stacks
]

abbrev pub minimum_stack_length : List ValueType → List (List ValueType) → ℕ
minimum_stack_length stack [] = length stack
minimum_stack_length stack (next ∷ stacks) = min (length stack) (minimum_stack_length next stacks)

-- The loop of `pickCommonAtomicValueType`, on the number of levels that are left
unfoldable pub pick_at_level : ℕ → ℕ → List (List ValueType) → Option ValueType → Option ValueType
pick_at_level zero level stacks resulting_type = resulting_type
pick_at_level (suc left) level stacks resulting_type =
    let types = types_of_level level stacks in
    let deeper = pick_at_level left (suc level) stacks (get_elem? types 0) in
    if are_all_types_equal types then deeper else resulting_type

abbrev pub pick_common_atomic_value_type : List (List ValueType) → Option ValueType
pick_common_atomic_value_type [] = none
pick_common_atomic_value_type (stack ∷ stacks) =
    pick_at_level (minimum_stack_length stack stacks - 1) 1 (stack ∷ stacks) none

-- `elementValuetypes.map(getValuetypeHierarchyStack)`
abbrev pub hierarchy_stacks : List ValueType → Result NoError (List (List ValueType))
hierarchy_stacks [] = ok []
hierarchy_stacks (t ∷ ts) = do
  stack ← get_value_type_hierarchy_stack t
  stacks ← hierarchy_stacks ts
  ok (stack ∷ stacks)

abbrev pub last_type : List ValueType → Option ValueType
last_type [] = none
last_type (t ∷ []) = some t
last_type (t ∷ u ∷ ts) = last_type (u ∷ ts)

abbrev pub collection_of : Option ValueType → Option ValueType
collection_of none = none
collection_of (some t) = some (collection_type t)

-- The end of `inferCollectionType`, on two stacks or more
abbrev pub common_collection_type : Option ValueType → Option ValueType → Option ValueType
common_collection_type none atomic = none
common_collection_type (some primitive) none = some (collection_type primitive)
common_collection_type (some primitive) (some atomic) = some (collection_type atomic)

-- `inferCollectionType`, on the hierarchy stacks of the elements
unfoldable pub collection_type_of_stacks : List (List ValueType) → Result NoError (Option ValueType)
collection_type_of_stacks [] = ok (some empty_collection_type)
collection_type_of_stacks (stack ∷ []) = ok (collection_of (last_type stack))
collection_type_of_stacks (stack ∷ next ∷ stacks) = do
  primitive ← pick_common_primitive_value_type (types_of_level 0 (stack ∷ next ∷ stacks))
  ok (common_collection_type primitive (pick_common_atomic_value_type (stack ∷ next ∷ stacks)))

-- `inferCollectionType`, behind the types of the elements
unfoldable pub infer_collection_type : Option (List ValueType) → Result NoError (Option ValueType)
infer_collection_type none = ok none
infer_collection_type (some types) = hierarchy_stacks types >>= collection_type_of_stacks

-- What the inference reads: the types that ports and properties are declared with, the value type of
-- the expression constraint around the expression, and `Number.isInteger`.
pub record TypeContext (N : Type 0) : Type 0 where
  pub variable_types : List (String × ValueType)
  pub value_keyword_type : Option ValueType
  pub is_integer_number : N → Bool

abbrev pub on_type : Option ValueType → (ValueType → Option ValueType) → Option ValueType
on_type none f = none
on_type (some t) f = f t

abbrev pub defined_type : Option ValueType → Option (List ValueType) → Option (List ValueType)
defined_type none ts = none
defined_type (some t) none = none
defined_type (some t) (some ts) = some (t ∷ ts)

module _ {N : Type 0} (c : TypeContext N) where
  -- `inferTypeFromReferenceLiteral`
  abbrev pub infer_reference_type : Reference → Option ValueType
  infer_reference_type unresolved = none
  infer_reference_type (definition kind i) = some (node_type kind)
  infer_reference_type (variable name) = lookup name c.variable_types

  -- `inferTypeFromValueKeyword`, with the flag `lengthAccess`
  abbrev pub infer_value_keyword_type : Bool → Option ValueType
  infer_value_keyword_type length_access = on_type c.value_keyword_type (λ t.
      if length_access
      then (if is_convertible_to t text_type then some integer_type else none)
      else some t)

module _ {N R : Type 0} (c : TypeContext N) where
  -- `inferTypeFromExpressionLiteral` on a value literal that is no collection
  abbrev pub infer_literal_type : Value N R → Option ValueType
  infer_literal_type (boolean b) = some boolean_type
  infer_literal_type (number n) =
      some (if c.is_integer_number n then integer_type else decimal_type)
  infer_literal_type (string s) = some text_type
  infer_literal_type (regex r) = some regex_type
  infer_literal_type (node cell_range_node i) = some (node_type cell_range_node)
  infer_literal_type (node value_type_assignment_node i) =
      some (node_type value_type_assignment_node)
  infer_literal_type _ = none

  unfoldable mutual
    -- `inferExpressionType`; `infer_element_types` is `inferCollectionElementTypes`.
    pub infer_expression_type : Expression N R → Result NoError (Option ValueType)
    infer_expression_type missing = ok none
    infer_expression_type (reference r) = ok (infer_reference_type c r)
    infer_expression_type (value_keyword length_access) =
        ok (infer_value_keyword_type c length_access)
    infer_expression_type (literal v) = ok (infer_literal_type v)
    infer_expression_type (collection_literal es) = infer_element_types es >>= infer_collection_type
    infer_expression_type (unary op e) = do
      t ← infer_expression_type e
      ok (on_type t (compute_unary_type op))
    infer_expression_type (binary op left right) = do
      l ← infer_expression_type left
      r ← infer_expression_type right
      ok (on_type l (λ t. on_type r (compute_binary_type op t)))
    infer_expression_type (short_circuit op left right) = do
      l ← infer_expression_type left
      r ← infer_expression_type right
      ok (on_type l (λ t. on_type r (compute_short_circuit_type t)))
    infer_expression_type (replace first second third) = do
      f ← infer_expression_type first
      s ← infer_expression_type second
      t ← infer_expression_type third
      ok (on_type f (λ x. on_type s (λ y. on_type t (compute_replace_type x y))))

    pub infer_element_types : Expressions N R → Result NoError (Option (List ValueType))
    infer_element_types no_expressions = ok (some [])
    infer_element_types (expression e es) = do
      t ← infer_expression_type e
      ts ← infer_element_types es
      ok (defined_type t ts)
