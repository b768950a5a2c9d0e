-- ===== src/Expressions/Types/Shapes.antt =====
-- Values by their shape: the values of a type that converts to an operand type pass its guard, and a
-- computation behind a guard is sound where it is so for every value that passes.
use jayvee.Base.{
  ◌≡◌, refl, sym, subst, Bool, true, false, Option, none, some, String, if◌then◌else◌,
}
use jayvee.Expressions.{
  Outcome, gives, guard_fails, error_thrown, ◌>>=◌, Value, boolean, number, string, regex, node,
  collection,
}
use jayvee.Expressions.Operators.{parsed, as_number, as_string, as_boolean, as_regex}
use jayvee.Expressions.Types.{
  ValueType, boolean_type, text_type, integer_type, decimal_type, regex_type, node_type,
  collection_type, empty_collection_type, atomic_type, rootless_type, is_convertible_to, has_shape,
  is_number, is_string, is_boolean, is_regex,
}

pub if_some :
    {A : Type 0} (b : Bool) (x y : A)
    → ◌≡◌ {A = Option A} (if b then some x else none) (some y)
    → (b ≡ true) × (x ≡ y)
if_some true x y h = (refl, cc)
if_some false x y h = cc

module _ {N R : Type 0} where
  -- No guard fails, and a value has the shape of the type.
  abbrev pub IsSound : ValueType → Outcome (Option (Value N R)) → Type 0
  IsSound t (gives none) = Unit
  IsSound t (gives (some v)) = has_shape t v ≡ true
  IsSound t guard_fails = ⊥
  IsSound t error_thrown = Unit

  pub number_of : (v : Value N R) → is_number v ≡ true → (n : N) × (v ≡ number n)
  number_of (number n) h = (n, refl)
  number_of (boolean n) h = cc
  number_of (string n) h = cc
  number_of (regex n) h = cc
  number_of (node n i) h = cc
  number_of (collection n) h = cc

  pub string_of : (v : Value N R) → is_string v ≡ true → (s : String) × (v ≡ string s)
  string_of (string n) h = (n, refl)
  string_of (boolean n) h = cc
  string_of (number n) h = cc
  string_of (regex n) h = cc
  string_of (node n i) h = cc
  string_of (collection n) h = cc

  pub boolean_of : (v : Value N R) → is_boolean v ≡ true → (b : Bool) × (v ≡ boolean b)
  boolean_of (boolean n) h = (n, refl)
  boolean_of (string n) h = cc
  boolean_of (number n) h = cc
  boolean_of (regex n) h = cc
  boolean_of (node n i) h = cc
  boolean_of (collection n) h = cc

  pub regex_of : (v : Value N R) → is_regex v ≡ true → (r : R) × (v ≡ regex r)
  regex_of (regex n) h = (n, refl)
  regex_of (string n) h = cc
  regex_of (number n) h = cc
  regex_of (boolean n) h = cc
  regex_of (node n i) h = cc
  regex_of (collection n) h = cc

  -- A value of a type that converts to Decimal is a number, and so for the other operand types.
  pub convertible_number :
      (t : ValueType) (v : Value N R)
      → is_convertible_to t decimal_type ≡ true
      → has_shape t v ≡ true
      → is_number v ≡ true
  unfolding is_convertible_to has_shape
  convertible_number integer_type v c h = h
  convertible_number decimal_type v c h = h
  convertible_number (atomic_type i t) v c h = convertible_number t v c h
  convertible_number boolean_type v c h = cc
  convertible_number text_type v c h = cc
  convertible_number regex_type v c h = cc
  convertible_number (node_type k) v c h = cc
  convertible_number (collection_type t) v c h = cc
  convertible_number empty_collection_type v c h = cc
  convertible_number (rootless_type i) v c h = cc

  pub convertible_text :
      (t : ValueType) (v : Value N R)
      → is_convertible_to t text_type ≡ true
      → has_shape t v ≡ true
      → is_string v ≡ true
  unfolding is_convertible_to has_shape
  convertible_text text_type v c h = h
  convertible_text (atomic_type i t) v c h = convertible_text t v c h
  convertible_text integer_type v c h = cc
  convertible_text decimal_type v c h = cc
  convertible_text boolean_type v c h = cc
  convertible_text regex_type v c h = cc
  convertible_text (node_type k) v c h = cc
  convertible_text (collection_type t) v c h = cc
  convertible_text empty_collection_type v c h = cc
  convertible_text (rootless_type i) v c h = cc

  pub convertible_boolean :
      (t : ValueType) (v : Value N R)
      → is_convertible_to t boolean_type ≡ true
      → has_shape t v ≡ true
      → is_boolean v ≡ true
  unfolding is_convertible_to has_shape
  convertible_boolean boolean_type v c h = h
  convertible_boolean (atomic_type i t) v c h = convertible_boolean t v c h
  convertible_boolean integer_type v c h = cc
  convertible_boolean decimal_type v c h = cc
  convertible_boolean text_type v c h = cc
  convertible_boolean regex_type v c h = cc
  convertible_boolean (node_type k) v c h = cc
  convertible_boolean (collection_type t) v c h = cc
  convertible_boolean empty_collection_type v c h = cc
  convertible_boolean (rootless_type i) v c h = cc

  pub convertible_regex :
      (t : ValueType) (v : Value N R)
      → is_convertible_to t regex_type ≡ true
      → has_shape t v ≡ true
      → is_regex v ≡ true
  unfolding is_convertible_to has_shape
  convertible_regex regex_type v c h = h
  convertible_regex (atomic_type i t) v c h = convertible_regex t v c h
  convertible_regex integer_type v c h = cc
  convertible_regex decimal_type v c h = cc
  convertible_regex text_type v c h = cc
  convertible_regex boolean_type v c h = cc
  convertible_regex (node_type k) v c h = cc
  convertible_regex (collection_type t) v c h = cc
  convertible_regex empty_collection_type v c h = cc
  convertible_regex (rootless_type i) v c h = cc

  -- A type that converts to Decimal has the shape of every number.
  pub numeric_shape :
      (t : ValueType) (v : Value N R)
      → is_convertible_to t decimal_type ≡ true
      → is_number v ≡ true
      → has_shape t v ≡ true
  unfolding is_convertible_to has_shape
  numeric_shape integer_type v c h = h
  numeric_shape decimal_type v c h = h
  numeric_shape (atomic_type i t) v c h = numeric_shape t v c h
  numeric_shape boolean_type v c h = cc
  numeric_shape text_type v c h = cc
  numeric_shape regex_type v c h = cc
  numeric_shape (node_type k) v c h = cc
  numeric_shape (collection_type t) v c h = cc
  numeric_shape empty_collection_type v c h = cc
  numeric_shape (rootless_type i) v c h = cc

  pub on_number :
      (u : ValueType) (v : Value N R) (f : N → Outcome (Option (Value N R)))
      → is_number v ≡ true
      → ((n : N) → IsSound u (f n))
      → IsSound u (as_number v >>= f)
  on_number u v f h law =
      let (n, same) = number_of v h in subst (λ w. IsSound u (as_number w >>= f)) (sym same) (law n)

  pub on_string :
      (u : ValueType) (v : Value N R) (f : String → Outcome (Option (Value N R)))
      → is_string v ≡ true
      → ((s : String) → IsSound u (f s))
      → IsSound u (as_string v >>= f)
  on_string u v f h law =
      let (n, same) = string_of v h in subst (λ w. IsSound u (as_string w >>= f)) (sym same) (law n)

  pub on_boolean :
      (u : ValueType) (v : Value N R) (f : Bool → Outcome (Option (Value N R)))
      → is_boolean v ≡ true
      → ((b : Bool) → IsSound u (f b))
      → IsSound u (as_boolean v >>= f)
  on_boolean u v f h law =
      let (n, same) = boolean_of v h in
      subst (λ w. IsSound u (as_boolean w >>= f)) (sym same) (law n)

  pub on_regex :
      (u : ValueType) (v : Value N R) (f : R → Outcome (Option (Value N R)))
      → is_regex v ≡ true
      → ((r : R) → IsSound u (f r))
      → IsSound u (as_regex v >>= f)
  on_regex u v f h law =
      let (n, same) = regex_of v h in subst (λ w. IsSound u (as_regex w >>= f)) (sym same) (law n)

  pub on_parsed :
      {A : Type 0} (u : ValueType) (o : Option A) (f : A → Outcome (Option (Value N R)))
      → ((a : A) → IsSound u (f a))
      → IsSound u (parsed o >>= f)
  on_parsed u none f law = tt
  on_parsed u (some a) f law = law a

  pub either_way :
      (u : ValueType) (b : Bool) (x y : Outcome (Option (Value N R)))
      → IsSound u x
      → IsSound u y
      → IsSound u (if b then x else y)
  either_way u true x y p q = p
  either_way u false x y p q = q
