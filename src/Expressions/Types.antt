-- ===== src/Expressions/Types.antt =====
-- wrappers/value-type: the value types, their equality and convertibility, and the shape of the values
-- of a type, which is what the typeguards of the operators look at. An atomic value type is a user's
-- definition; one whose chain of supertypes does not end at a primitive type is `rootless_type`.
pub mod Computers
pub mod Shapes
pub mod Membership
pub mod Unary
pub mod Binary
pub mod Numbers
pub mod Declared
use jayvee.Base.{ℕ, Bool, true, false, ◌&&◌, ◌||◌, ◌==◌}
use jayvee.Expressions.{
  Value, boolean, number, string, regex, node, collection, Values, no_values, value, NodeKind,
  cell_range_node, constraint_node, value_type_assignment_node, transform_node,
}

pub data ValueType : Type 0 where
  boolean_type : ValueType
  text_type : ValueType
  integer_type : ValueType
  decimal_type : ValueType
  regex_type : ValueType
  node_type : NodeKind → ValueType
  collection_type : ValueType → ValueType
  empty_collection_type : ValueType
  atomic_type : ℕ → ValueType → ValueType
  rootless_type : ℕ → ValueType

abbrev pub same_kind : NodeKind → NodeKind → Bool
same_kind cell_range_node cell_range_node = true
same_kind constraint_node constraint_node = true
same_kind value_type_assignment_node value_type_assignment_node = true
same_kind transform_node transform_node = true
same_kind _ _ = false

-- `equals`: primitive types are singletons, atomic ones are told apart by their definition. That of a
-- collection asks its element types the other way round, which is the same.
abbrev pub equals : ValueType → ValueType → Bool
equals boolean_type boolean_type = true
equals text_type text_type = true
equals integer_type integer_type = true
equals decimal_type decimal_type = true
equals regex_type regex_type = true
equals (node_type k) (node_type l) = same_kind k l
equals (collection_type t) (collection_type u) = equals t u
equals empty_collection_type empty_collection_type = true
equals (atomic_type i t) (atomic_type j u) = i == j
equals (rootless_type i) (rootless_type j) = i == j
equals _ _ = false

abbrev pub is_decimal : ValueType → Bool
is_decimal decimal_type = true
is_decimal _ = false

abbrev pub is_collection : ValueType → Bool
is_collection (collection_type t) = true
is_collection _ = false

-- `isConvertibleTo`
unfoldable pub is_convertible_to : ValueType → ValueType → Bool
is_convertible_to integer_type target = equals target integer_type || is_decimal target
is_convertible_to empty_collection_type target =
    equals target empty_collection_type || is_collection target
is_convertible_to (atomic_type i t) target =
    equals target (atomic_type i t) || is_convertible_to t target
is_convertible_to t target = equals target t

module _ {N R : Type 0} where
  abbrev pub is_boolean : Value N R → Bool
  is_boolean (boolean b) = true
  is_boolean _ = false

  abbrev pub is_number : Value N R → Bool
  is_number (number n) = true
  is_number _ = false

  abbrev pub is_string : Value N R → Bool
  is_string (string s) = true
  is_string _ = false

  abbrev pub is_regex : Value N R → Bool
  is_regex (regex r) = true
  is_regex _ = false

  abbrev pub is_node : NodeKind → Value N R → Bool
  is_node k (node l i) = same_kind k l
  is_node k _ = false

  abbrev pub every : (Value N R → Bool) → Values N R → Bool
  every test no_values = true
  every test (value v vs) = test v && every test vs

  abbrev pub is_collection_of : (Value N R → Bool) → Value N R → Bool
  is_collection_of test (collection vs) = every test vs
  is_collection_of test _ = false

  abbrev pub is_empty_collection : Value N R → Bool
  is_empty_collection (collection no_values) = true
  is_empty_collection _ = false

  -- `isInternalValueRepresentation`, without its tests for integers and finite numbers
  unfoldable pub has_shape : ValueType → Value N R → Bool
  has_shape boolean_type v = is_boolean v
  has_shape text_type v = is_string v
  has_shape integer_type v = is_number v
  has_shape decimal_type v = is_number v
  has_shape regex_type v = is_regex v
  has_shape (node_type k) v = is_node k v
  has_shape (collection_type t) v = is_collection_of (has_shape t) v
  has_shape empty_collection_type v = is_empty_collection v
  has_shape (atomic_type i t) v = has_shape t v
  has_shape (rootless_type i) v = false
