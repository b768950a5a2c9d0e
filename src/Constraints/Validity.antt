-- ===== src/Constraints/Validity.antt =====
-- types/value-types/value-representation-validity.ts: whether a value is valid for a value type.
use jayvee.Base.{
  ℕ, Bool, true, false, Option, none, some, List, [], ◌∷◌, if◌then◌else◌, Result, NoError, ok,
  throws, ◌>>=◌, String,
}
use jayvee.Expressions.{
  constraint_node, Value, node, collection, Values, no_values, value, Expression, lazy, Runtime,
  EvaluationContext,
}
use jayvee.Expressions.Evaluate.{evaluate_expression}
use jayvee.Expressions.Types.{ValueType, atomic_type, rootless_type, collection_type, node_type}
use jayvee.Constraints.{Numerals, Constraint, thrown_on, is_internal_value_representation}
use jayvee.Constraints.Executors.{is_valid}

-- What the definitions of a program say: the collection of constraints of each value type, and the
-- constraint definitions.
pub record Definitions (N R : Type 0) : Type 0 where
  pub constraints_of : ℕ → Expression N R
  pub constraint_definition : ℕ → Constraint N R

module _ {N R : Type 0} (js : Runtime N R) (numerals : Numerals N)
    (runtime_parameters : List (String × String)) (definitions : Definitions N R) where
  -- `AtomicValueType.getConstraints`: a value that is no collection of constraints counts as none.
  abbrev pub constraints_in : Values N R → List (Constraint N R)
  constraints_in no_values = []
  constraints_in (value (node constraint_node i) vs) =
      definitions.constraint_definition i ∷ constraints_in vs
  constraints_in (value v vs) = constraints_in vs

  abbrev pub constraint_list : Option (Value N R) → List (Constraint N R)
  constraint_list none = []
  constraint_list (some (collection vs)) =
      if is_internal_value_representation js numerals (collection_type (node_type constraint_node))
        (collection vs)
      then constraints_in vs
      else []
  constraint_list (some v) = []

  unfoldable pub get_constraints :
      ℕ → EvaluationContext N R → Result NoError (List (Constraint N R))
  get_constraints i c = do
    constraints ← thrown_on (evaluate_expression js lazy c (definitions.constraints_of i))
    ok (constraint_list constraints)

  -- The loop of `visitAtomicValueType` over the constraints
  unfoldable pub fulfills_all :
      List (Constraint N R)
      → Value N R
      → EvaluationContext N R
      → Result NoError (Bool × EvaluationContext N R)
  fulfills_all [] v c = ok (true, c)
  fulfills_all (constraint ∷ constraints) v c = do
    (fulfilled, c') ← is_valid js numerals runtime_parameters constraint v c
    if fulfilled then fulfills_all constraints v c' else ok (false, c')

  -- `isValidValueRepresentation`
  unfoldable pub is_valid_value_representation :
      Value N R → ValueType → EvaluationContext N R → Result NoError (Bool × EvaluationContext N R)
  is_valid_value_representation v (atomic_type i t) c = do
    (by_supertype, c') ← is_valid_value_representation v t c
    if by_supertype
        then (do constraints ← get_constraints i c'; fulfills_all constraints v c')
        else ok (false, c')
  is_valid_value_representation v (rootless_type i) c = throws
  is_valid_value_representation v t c = ok (is_internal_value_representation js numerals t v, c)
