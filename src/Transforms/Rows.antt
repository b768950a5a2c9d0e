-- ===== src/Transforms/Rows.antt =====
-- The loop of `doExecuteTransform` over the rows: each row adds a value to the new column or is marked
-- for deletion.
use jayvee.Base.{
  ℕ, zero, suc, ◌+◌, ◌≡◌, refl, sym, ap, ◌∙◌, subst, true, Option, none, some, List, [], ◌∷◌,
  length, All, get_elem?, Result, NoError, ok, >>=-eq-ok, ok_injective, defined-eq-ok, assert-eq-ok,
  Bool-cases, inl, inr, String, arith,
}
use jayvee.Base.Dict.{lookup}
use jayvee.Expressions.{Value, Runtime, EvaluationContext, set_value_for_reference}
use jayvee.Expressions.Types.{ValueType, has_shape}
use jayvee.Constraints.{Numerals}
use jayvee.Constraints.Validity.{Definitions, is_valid_value_representation}
use jayvee.Constraints.Accepted.{
  is_valid_value_representation-context, is_valid_value_representation-has_shape,
}
use jayvee.Transforms.{
  PortDetails, Transform, VariableColumns, add_variables_to_context, remove_variables_from_context,
  new_value, kept_value, transform_row, put_value, transform_rows, execute_transform,
  get_input_details, get_output_details,
}
use jayvee.Table.{TableColumn}
use jayvee.Transforms.Increasing.{IsIncreasing, IsIncreasing-weaken}

module _ {N R : Type 0} where
  pub add_variables-keyword :
      (ds : List PortDetails) (columns : VariableColumns N R) (i : ℕ) (c c' : EvaluationContext N R)
      → add_variables_to_context ds columns i c ≡ ok c'
      → c'.value_keyword_value ≡ c.value_keyword_value
  unfolding add_variables_to_context
  add_variables-keyword [] columns i c c' e = ap (λ x. x.value_keyword_value) (sym (ok_injective e))
  add_variables-keyword (d ∷ ds) columns i c c' e =
      let (column, _, e') = defined-eq-ok (lookup d.port columns) _ e in
      let (v, _, e'') = defined-eq-ok (get_elem? column.values i) _ e' in
      add_variables-keyword ds columns i (set_value_for_reference d.port v c) c' e''

  remove_variables-keyword :
      (ds : List PortDetails) (c : EvaluationContext N R)
      → (remove_variables_from_context ds c).value_keyword_value ≡ c.value_keyword_value
  unfolding remove_variables_from_context
  remove_variables-keyword [] c = refl
  remove_variables-keyword (d ∷ ds) c = remove_variables-keyword ds _

module _ {N R : Type 0} where
  -- The rows of the loop: each one has a value of the output type or is to be deleted.
  pub record AreTransformed (t : ValueType) (first rows : ℕ) (values : List (Value N R))
      (rows_to_delete : List ℕ) : Type 0 where
    pub counted : length values + length rows_to_delete ≡ rows
    pub increasing : IsIncreasing first (first + rows) rows_to_delete
    pub fitting : All (λ v. has_shape t v ≡ true) values

module _ {N R : Type 0} (js : Runtime N R) (numerals : Numerals N)
    (runtime_parameters : List (String × String)) (definitions : Definitions N R) where
  -- What a row gives: a value that fits, if any
  abbrev FitsIf : ValueType → Option (Value N R) → Type 0
  FitsIf t none = Unit
  FitsIf t (some v) = has_shape t v ≡ true

  kept_value-FitsIf :
      (o kept : Option (Value N R)) (t : ValueType) (c c' : EvaluationContext N R)
      → c.value_keyword_value ≡ none
      → kept_value js numerals runtime_parameters definitions o t c ≡ ok (kept, c')
      → FitsIf t kept × (c'.value_keyword_value ≡ none)
  unfolding kept_value
  kept_value-FitsIf none kept t c c' k e =
      let e' = ok_injective e in
      (subst (FitsIf t) (ap (λ x. x.0) e') tt, ap (λ x. x.1.value_keyword_value) (sym e') ∙ k)
  kept_value-FitsIf (some v) kept t c c' k e =
      let (r, found, e') =
        >>=-eq-ok (is_valid_value_representation js numerals runtime_parameters definitions v t c) _
          e in
      let same =
        is_valid_value_representation-context js numerals runtime_parameters definitions c k v t r.0
          r.1 found in
      elim (Bool-cases r.0) [
        | inl valid ↦
            let given : ◌≡◌ {A = Result NoError (Option (Value N R) × EvaluationContext N R)}
                (ok (some v, r.1)) (ok (kept, c')) =
              rw valid at e' in
            let shape =
              is_valid_value_representation-has_shape js numerals runtime_parameters definitions c k
                v t r.1 (found ∙ ap (λ b. ok (b, r.1)) valid) in
            (
              subst (FitsIf t) (ap (λ x. x.0) (ok_injective given)) shape,
              ap (λ x. x.1.value_keyword_value) (sym (ok_injective given))
                  ∙ ap (λ x. x.value_keyword_value) same
                  ∙ k,
            )
        | inr not_valid ↦
            let (_, given) = assert-eq-ok _ _ (rw not_valid at e') in
            (
              subst (FitsIf t) (ap (λ x. x.0) (ok_injective given)) tt,
              ap (λ x. x.1.value_keyword_value) (sym (ok_injective given))
                  ∙ ap (λ x. x.value_keyword_value) same
                  ∙ k,
            )
      ]

  transform_row-FitsIf :
      (t : Transform N R) (inputs : List PortDetails) (output : PortDetails)
      (columns : VariableColumns N R) (i : ℕ) (c c' : EvaluationContext N R)
      (kept : Option (Value N R))
      → c.value_keyword_value ≡ none
      → transform_row js numerals runtime_parameters definitions t inputs output columns i c
        ≡ ok (kept, c')
      → FitsIf output.value_type kept × (c'.value_keyword_value ≡ none)
  unfolding transform_row
  transform_row-FitsIf t inputs output columns i c c' kept k e =
      let (c₁, added, e') = >>=-eq-ok (add_variables_to_context inputs columns i c) _ e in
      let (r, found, e'') =
        >>=-eq-ok
          (kept_value js numerals runtime_parameters definitions
            (new_value js numerals runtime_parameters definitions t c₁) output.value_type c₁)
          _ e' in
      let (fits, k') =
        kept_value-FitsIf _ r.0 output.value_type c₁ r.1
          (add_variables-keyword inputs columns i c c₁ added ∙ k) found in
      let e₃ = ok_injective e'' in
      (
        subst (FitsIf output.value_type) (ap (λ x. x.0) e₃) fits,
        ap (λ x. x.1.value_keyword_value) (sym e₃) ∙ remove_variables-keyword inputs r.1 ∙ k',
      )

  put_value-AreTransformed :
      (t : ValueType) (first rows : ℕ) (kept : Option (Value N R))
      (later : List (Value N R) × List ℕ)
      → FitsIf t kept
      → AreTransformed t (suc first) rows later.0 later.1
      → AreTransformed t first
          (suc rows)
          ((put_value js numerals runtime_parameters definitions first kept later).0)
          ((put_value js numerals runtime_parameters definitions first kept later).1)
  put_value-AreTransformed t first rows none later f a = record {
    counted = omega (arith, a.counted);
    increasing = (
      omega arith,
      omega arith,
      subst (λ l. IsIncreasing (suc first) l later.1) (omega arith) a.increasing,
    );
    fitting = a.fitting;
  }
  put_value-AreTransformed t first rows (some v) later f a = record {
    counted = omega (arith, a.counted);
    increasing =
        subst (λ l. IsIncreasing first l later.1) (omega arith)
          (IsIncreasing-weaken (suc first) first _ later.1 (omega arith) a.increasing);
    fitting = (f, a.fitting);
  }

  pub transform_rows-AreTransformed :
      (t : Transform N R) (inputs : List PortDetails) (output : PortDetails)
      (columns : VariableColumns N R) (rows i : ℕ) (c c' : EvaluationContext N R)
      (values : List (Value N R)) (rows_to_delete : List ℕ)
      → c.value_keyword_value ≡ none
      → transform_rows js numerals runtime_parameters definitions t inputs output columns rows i c
        ≡ ok ((values, rows_to_delete), c')
      → AreTransformed output.value_type i rows values rows_to_delete
  unfolding transform_rows
  transform_rows-AreTransformed t inputs output columns zero i c c' values deleted k e =
      subst (λ x. AreTransformed output.value_type i 0 x.0.0 x.0.1) (ok_injective e)
        (record { counted = refl; increasing = tt; fitting = tt })
  transform_rows-AreTransformed t inputs output columns (suc rows) i c c' values deleted k e =
      let (r, row, e') =
        >>=-eq-ok
          (transform_row js numerals runtime_parameters definitions t inputs output columns i c) _
          e in
      let (fits, k') = transform_row-FitsIf t inputs output columns i c r.1 r.0 k row in
      let (s, later, e'') =
        >>=-eq-ok
          (transform_rows js numerals runtime_parameters definitions t inputs output columns rows
            (suc i) r.1)
          _ e' in
      subst (λ x. AreTransformed output.value_type i (suc rows) x.0.0 x.0.1) (ok_injective e'')
        (put_value-AreTransformed output.value_type i rows r.0 s.0 fits (
          transform_rows-AreTransformed t inputs output columns rows (suc i) r.1 s.1 s.0.0 s.0.1 k'
            later))

  -- Outside of any expression constraint, a transform that does not throw gives or deletes each of the
  -- rows exactly once: the values of the new column and the rows to delete are together as many as
  -- the rows, the rows to delete are rows of the table in rising order, and every value of the new
  -- column has the shape of the type that the column is given.
  pub execute_transform-AreTransformed :
      (t : Transform N R) (columns : VariableColumns N R) (rows : ℕ) (c : EvaluationContext N R)
      (column : TableColumn (Value N R) ValueType) (rows_to_delete : List ℕ)
      → c.value_keyword_value ≡ none
      → execute_transform js numerals runtime_parameters definitions t columns rows c
        ≡ ok (column, rows_to_delete)
      → AreTransformed column.value_type 0 rows column.values rows_to_delete
  unfolding execute_transform
  execute_transform-AreTransformed t columns rows c column deleted k e =
      let (inputs, _, e') = >>=-eq-ok (get_input_details t) _ e in
      let (output, _, e'') = >>=-eq-ok (get_output_details t) _ e' in
      let (r, found, e₃) =
        >>=-eq-ok
          (transform_rows js numerals runtime_parameters definitions t inputs output columns rows 0
            c)
          _ e'' in
      subst (λ x. AreTransformed x.0.value_type 0 rows x.0.values x.1) (ok_injective e₃)
        (transform_rows-AreTransformed t inputs output columns rows 0 c r.1 r.0.0 r.0.1 k found)
