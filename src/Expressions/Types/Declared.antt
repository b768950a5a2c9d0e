-- ===== src/Expressions/Types/Declared.antt =====
-- The equality of value types, on types whose atomic types stand with the supertypes that their
-- definitions declare.
use jayvee.Base.{ℕ, ◌≡◌, refl, sym, ap, ap₂, ◌∙◌, true, ==_iff}
use jayvee.Expressions.{
  NodeKind, cell_range_node, constraint_node, value_type_assignment_node, transform_node,
}
use jayvee.Expressions.Types.{
  ValueType, boolean_type, text_type, integer_type, decimal_type, regex_type, node_type,
  collection_type, empty_collection_type, atomic_type, rootless_type, equals, same_kind, is_decimal,
  is_collection,
}

same_kind-eq : (k l : NodeKind) → same_kind k l ≡ true → k ≡ l
same_kind-eq cell_range_node cell_range_node h = refl
same_kind-eq constraint_node constraint_node h = refl
same_kind-eq value_type_assignment_node value_type_assignment_node h = refl
same_kind-eq transform_node transform_node h = refl
same_kind-eq cell_range_node constraint_node h = cc
same_kind-eq cell_range_node value_type_assignment_node h = cc
same_kind-eq cell_range_node transform_node h = cc
same_kind-eq constraint_node cell_range_node h = cc
same_kind-eq constraint_node value_type_assignment_node h = cc
same_kind-eq constraint_node transform_node h = cc
same_kind-eq value_type_assignment_node cell_range_node h = cc
same_kind-eq value_type_assignment_node constraint_node h = cc
same_kind-eq value_type_assignment_node transform_node h = cc
same_kind-eq transform_node cell_range_node h = cc
same_kind-eq transform_node constraint_node h = cc
same_kind-eq transform_node value_type_assignment_node h = cc

pub is_decimal-eq : (u : ValueType) → is_decimal u ≡ true → u ≡ decimal_type
is_decimal-eq boolean_type h = cc
is_decimal-eq text_type h = cc
is_decimal-eq integer_type h = cc
is_decimal-eq decimal_type h = refl
is_decimal-eq regex_type h = cc
is_decimal-eq (node_type k) h = cc
is_decimal-eq (collection_type t) h = cc
is_decimal-eq empty_collection_type h = cc
is_decimal-eq (atomic_type i t) h = cc
is_decimal-eq (rootless_type i) h = cc

pub is_collection-eq :
    (u : ValueType) → is_collection u ≡ true → (t : ValueType) × (u ≡ collection_type t)
is_collection-eq boolean_type h = cc
is_collection-eq text_type h = cc
is_collection-eq integer_type h = cc
is_collection-eq decimal_type h = cc
is_collection-eq regex_type h = cc
is_collection-eq (node_type k) h = cc
is_collection-eq (collection_type t) h = (t, refl)
is_collection-eq empty_collection_type h = cc
is_collection-eq (atomic_type i t) h = cc
is_collection-eq (rootless_type i) h = cc

module _ (declared : ℕ → ValueType) where
  -- Every atomic type within the type has the supertype that its definition declares.
  abbrev pub IsDeclared : ValueType → Type 0
  IsDeclared (atomic_type i t) = (t ≡ declared i) × IsDeclared t
  IsDeclared (collection_type t) = IsDeclared t
  IsDeclared _ = Unit

  pub equals-eq : (t u : ValueType) → IsDeclared t → IsDeclared u → equals t u ≡ true → t ≡ u
  equals-eq boolean_type boolean_type d d' h = refl
  equals-eq boolean_type text_type d d' h = cc
  equals-eq boolean_type integer_type d d' h = cc
  equals-eq boolean_type decimal_type d d' h = cc
  equals-eq boolean_type regex_type d d' h = cc
  equals-eq boolean_type (node_type k') d d' h = cc
  equals-eq boolean_type (collection_type t') d d' h = cc
  equals-eq boolean_type empty_collection_type d d' h = cc
  equals-eq boolean_type (atomic_type i' t') d d' h = cc
  equals-eq boolean_type (rootless_type i') d d' h = cc
  equals-eq text_type boolean_type d d' h = cc
  equals-eq text_type text_type d d' h = refl
  equals-eq text_type integer_type d d' h = cc
  equals-eq text_type decimal_type d d' h = cc
  equals-eq text_type regex_type d d' h = cc
  equals-eq text_type (node_type k') d d' h = cc
  equals-eq text_type (collection_type t') d d' h = cc
  equals-eq text_type empty_collection_type d d' h = cc
  equals-eq text_type (atomic_type i' t') d d' h = cc
  equals-eq text_type (rootless_type i') d d' h = cc
  equals-eq integer_type boolean_type d d' h = cc
  equals-eq integer_type text_type d d' h = cc
  equals-eq integer_type integer_type d d' h = refl
  equals-eq integer_type decimal_type d d' h = cc
  equals-eq integer_type regex_type d d' h = cc
  equals-eq integer_type (node_type k') d d' h = cc
  equals-eq integer_type (collection_type t') d d' h = cc
  equals-eq integer_type empty_collection_type d d' h = cc
  equals-eq integer_type (atomic_type i' t') d d' h = cc
  equals-eq integer_type (rootless_type i') d d' h = cc
  equals-eq decimal_type boolean_type d d' h = cc
  equals-eq decimal_type text_type d d' h = cc
  equals-eq decimal_type integer_type d d' h = cc
  equals-eq decimal_type decimal_type d d' h = refl
  equals-eq decimal_type regex_type d d' h = cc
  equals-eq decimal_type (node_type k') d d' h = cc
  equals-eq decimal_type (collection_type t') d d' h = cc
  equals-eq decimal_type empty_collection_type d d' h = cc
  equals-eq decimal_type (atomic_type i' t') d d' h = cc
  equals-eq decimal_type (rootless_type i') d d' h = cc
  equals-eq regex_type boolean_type d d' h = cc
  equals-eq regex_type text_type d d' h = cc
  equals-eq regex_type integer_type d d' h = cc
  equals-eq regex_type decimal_type d d' h = cc
  equals-eq regex_type regex_type d d' h = refl
  equals-eq regex_type (node_type k') d d' h = cc
  equals-eq regex_type (collection_type t') d d' h = cc
  equals-eq regex_type empty_collection_type d d' h = cc
  equals-eq regex_type (atomic_type i' t') d d' h = cc
  equals-eq regex_type (rootless_type i') d d' h = cc
  equals-eq (node_type k) boolean_type d d' h = cc
  equals-eq (node_type k) text_type d d' h = cc
  equals-eq (node_type k) integer_type d d' h = cc
  equals-eq (node_type k) decimal_type d d' h = cc
  equals-eq (node_type k) regex_type d d' h = cc
  equals-eq (node_type k) (node_type k') d d' h = ap node_type (same_kind-eq k k' h)
  equals-eq (node_type k) (collection_type t') d d' h = cc
  equals-eq (node_type k) empty_collection_type d d' h = cc
  equals-eq (node_type k) (atomic_type i' t') d d' h = cc
  equals-eq (node_type k) (rootless_type i') d d' h = cc
  equals-eq (collection_type t) boolean_type d d' h = cc
  equals-eq (collection_type t) text_type d d' h = cc
  equals-eq (collection_type t) integer_type d d' h = cc
  equals-eq (collection_type t) decimal_type d d' h = cc
  equals-eq (collection_type t) regex_type d d' h = cc
  equals-eq (collection_type t) (node_type k') d d' h = cc
  equals-eq (collection_type t) (collection_type t') d d' h =
      ap collection_type (equals-eq t t' d d' h)
  equals-eq (collection_type t) empty_collection_type d d' h = cc
  equals-eq (collection_type t) (atomic_type i' t') d d' h = cc
  equals-eq (collection_type t) (rootless_type i') d d' h = cc
  equals-eq empty_collection_type boolean_type d d' h = cc
  equals-eq empty_collection_type text_type d d' h = cc
  equals-eq empty_collection_type integer_type d d' h = cc
  equals-eq empty_collection_type decimal_type d d' h = cc
  equals-eq empty_collection_type regex_type d d' h = cc
  equals-eq empty_collection_type (node_type k') d d' h = cc
  equals-eq empty_collection_type (collection_type t') d d' h = cc
  equals-eq empty_collection_type empty_collection_type d d' h = refl
  equals-eq empty_collection_type (atomic_type i' t') d d' h = cc
  equals-eq empty_collection_type (rootless_type i') d d' h = cc
  equals-eq (atomic_type i t) boolean_type d d' h = cc
  equals-eq (atomic_type i t) text_type d d' h = cc
  equals-eq (atomic_type i t) integer_type d d' h = cc
  equals-eq (atomic_type i t) decimal_type d d' h = cc
  equals-eq (atomic_type i t) regex_type d d' h = cc
  equals-eq (atomic_type i t) (node_type k') d d' h = cc
  equals-eq (atomic_type i t) (collection_type t') d d' h = cc
  equals-eq (atomic_type i t) empty_collection_type d d' h = cc
  equals-eq (atomic_type i t) (atomic_type i' t') (e, d) (e', d') h =
      let same = (==_iff i i').0 h in ap₂ atomic_type same (e ∙ ap declared same ∙ sym e')
  equals-eq (atomic_type i t) (rootless_type i') d d' h = cc
  equals-eq (rootless_type i) boolean_type d d' h = cc
  equals-eq (rootless_type i) text_type d d' h = cc
  equals-eq (rootless_type i) integer_type d d' h = cc
  equals-eq (rootless_type i) decimal_type d d' h = cc
  equals-eq (rootless_type i) regex_type d d' h = cc
  equals-eq (rootless_type i) (node_type k') d d' h = cc
  equals-eq (rootless_type i) (collection_type t') d d' h = cc
  equals-eq (rootless_type i) empty_collection_type d d' h = cc
  equals-eq (rootless_type i) (atomic_type i' t') d d' h = cc
  equals-eq (rootless_type i) (rootless_type i') d d' h = ap rootless_type ((==_iff i i').0 h)
