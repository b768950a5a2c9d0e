-- ===== src/Transforms/Values.antt =====
-- What a transform gives for each row: the value of its expression on that row's values.
use jayvee.Base.{
  ℕ, zero, suc, ◌≡◌, refl, sym, ap, ap₂, ◌∙◌, subst, true, false, Option, none, some, List, [], ◌∷◌,
  All, get_elem?, Result, NoError, ok, >>=-eq-ok, ok_injective, defined-eq-ok, assert-eq-ok,
  Bool-cases, inl, inr, String, ◌⊎◌,
}
use jayvee.Base.Dict.{lookup, has, erase-insert, erase-erase, erase_absent}
use jayvee.Expressions.{
  Value, Runtime, EvaluationContext, set_value_for_reference, delete_value_for_reference,
}
use jayvee.Expressions.Types.{ValueType}
use jayvee.Constraints.{Numerals}
use jayvee.Constraints.Validity.{Definitions, is_valid_value_representation}
use jayvee.Constraints.Accepted.{is_valid_value_representation-context}
use jayvee.Transforms.{
  PortDetails, Transform, VariableColumns, add_variables_to_context, remove_variables_from_context,
  new_value, kept_value, transform_row, put_value, transform_rows, execute_transform,
  get_input_details, get_output_details,
}
use jayvee.Transforms.Rows.{add_variables-keyword}
use jayvee.Table.{TableColumn}

module _ {N R : Type 0} where
  -- No variable of the input ports has a value.
  abbrev pub AreUnbound : List PortDetails → EvaluationContext N R → Type 0
  AreUnbound inputs c = All (λ d. has d.port c.variable_values ≡ false) inputs

  remove-delete :
      (ds : List PortDetails) (k : String) (c : EvaluationContext N R)
      → remove_variables_from_context ds (delete_value_for_reference k c)
        ≡ delete_value_for_reference k (remove_variables_from_context ds c)
  unfolding remove_variables_from_context
  remove-delete [] k c = refl
  remove-delete (d ∷ ds) k c =
      ap (λ m. remove_variables_from_context ds (record c { variable_values = m }))
        (erase-erase d.port k c.variable_values)
      ∙ remove-delete ds k (delete_value_for_reference d.port c)

  -- Removing the variables of a row undoes adding them.
  remove-add :
      (ds : List PortDetails) (columns : VariableColumns N R) (i : ℕ) (c c' : EvaluationContext N R)
      → add_variables_to_context ds columns i c ≡ ok c'
      → remove_variables_from_context ds c' ≡ remove_variables_from_context ds c
  unfolding add_variables_to_context remove_variables_from_context
  remove-add [] columns i c c' e = sym (ok_injective e)
  remove-add (d ∷ ds) columns i c c' e =
      let (column, _, e') = defined-eq-ok (lookup d.port columns) _ e in
      let (v, _, e'') = defined-eq-ok (get_elem? column.values i) _ e' in
      remove-delete ds d.port c'
      ∙ ap (delete_value_for_reference d.port)
          (remove-add ds columns i (set_value_for_reference d.port v c) c' e'')
      ∙ sym (remove-delete ds d.port (set_value_for_reference d.port v c))
      ∙ ap (λ m. remove_variables_from_context ds (record c { variable_values = m }))
          (erase-insert d.port v c.variable_values)

  remove_unbound :
      (ds : List PortDetails) (c : EvaluationContext N R)
      → AreUnbound ds c
      → remove_variables_from_context ds c ≡ c
  unfolding remove_variables_from_context
  remove_unbound [] c u = refl
  remove_unbound (d ∷ ds) c (p, u) =
      ap (λ m. remove_variables_from_context ds (record c { variable_values = m }))
        (erase_absent d.port c.variable_values p)
      ∙ remove_unbound ds c u

module _ {N R : Type 0} (js : Runtime N R) (numerals : Numerals N)
    (runtime_parameters : List (String × String)) (definitions : Definitions N R) where
  module _ (t : Transform N R) (inputs : List PortDetails) (output : PortDetails)
      (columns : VariableColumns N R) (c : EvaluationContext N R) where
    -- What a row gives, in the context `c` with the values of that row: the value of the expression,
    -- which is valid for the output type, or nothing if there is no valid value.
    abbrev pub RowGives : ℕ → Option (Value N R) → Type 0
    RowGives i (some v) =
        (c₁ : EvaluationContext N R) × (add_variables_to_context inputs columns i c ≡ ok c₁)
        × (new_value js numerals runtime_parameters definitions t c₁ ≡ some v)
        × (is_valid_value_representation js numerals runtime_parameters definitions v
              output.value_type c₁
            ≡ ok (true, c₁))
    RowGives i none =
        (c₁ : EvaluationContext N R) × (add_variables_to_context inputs columns i c ≡ ok c₁)
        × ((new_value js numerals runtime_parameters definitions t c₁ ≡ none)
            ⊎ ((v : Value N R) × (new_value js numerals runtime_parameters definitions t c₁
                  ≡ some v)
                × (is_valid_value_representation js numerals runtime_parameters definitions v
                      output.value_type c₁
                    ≡ ok (false, c₁))))

    -- The values and the deleted rows of so many rows from a first one on, row by row
    pub data RowsGive : ℕ → ℕ → List (Value N R) → List ℕ → Type 0 where
      no_rows : {i : ℕ} → RowsGive 0 i [] []
      row_kept :
          {rows i : ℕ} {v : Value N R} {vs : List (Value N R)} {ds : List ℕ}
          → RowGives i (some v)
          → RowsGive rows (suc i) vs ds
          → RowsGive (suc rows) i (v ∷ vs) ds
      row_deleted :
          {rows i : ℕ} {vs : List (Value N R)} {ds : List ℕ}
          → RowGives i none
          → RowsGive rows (suc i) vs ds
          → RowsGive (suc rows) i vs (i ∷ ds)

    module _ (no_keyword : c.value_keyword_value ≡ none) (unbound : AreUnbound inputs c) where
      kept_value-RowGives :
          (i : ℕ) (c₁ c₂ : EvaluationContext N R) (o kept : Option (Value N R))
          → add_variables_to_context inputs columns i c ≡ ok c₁
          → c₁.value_keyword_value ≡ none
          → new_value js numerals runtime_parameters definitions t c₁ ≡ o
          → kept_value js numerals runtime_parameters definitions o output.value_type c₁
            ≡ ok (kept, c₂)
          → RowGives i kept × (c₂ ≡ c₁)
      unfolding kept_value
      kept_value-RowGives i c₁ c₂ none kept added k new e =
          let e' = ok_injective e in
          (subst (RowGives i) (ap (λ x. x.0) e') (c₁, added, inl new), sym (ap (λ x. x.1) e'))
      kept_value-RowGives i c₁ c₂ (some v) kept added k new e =
          let (r, found, e') =
            >>=-eq-ok
              (is_valid_value_representation js numerals runtime_parameters definitions v
                output.value_type c₁)
              _ e in
          let same =
            is_valid_value_representation-context js numerals runtime_parameters definitions c₁ k v
              output.value_type r.0 r.1 found in
          elim (Bool-cases r.0) [
            | inl valid ↦
                let given : ◌≡◌ {A = Result NoError (Option (Value N R) × EvaluationContext N R)}
                    (ok (some v, r.1)) (ok (kept, c₂)) =
                  rw valid at e' in
                (
                  subst (RowGives i) (ap (λ x. x.0) (ok_injective given))
                      (c₁, added, new, found ∙ ap₂ (λ b x. ok (b, x)) valid same),
                  sym (ap (λ x. x.1) (ok_injective given)) ∙ same,
                )
            | inr not_valid ↦
                let (_, given) = assert-eq-ok _ _ (rw not_valid at e') in
                (
                  subst (RowGives i) {x = none} (ap (λ x. x.0) (ok_injective given))
                      (c₁, added, inr (v, new, found ∙ ap₂ (λ b x. ok (b, x)) not_valid same)),
                  sym (ap (λ x. x.1) (ok_injective given)) ∙ same,
                )
          ]

      transform_row-RowGives :
          (i : ℕ) (kept : Option (Value N R)) (c' : EvaluationContext N R)
          → transform_row js numerals runtime_parameters definitions t inputs output columns i c
            ≡ ok (kept, c')
          → RowGives i kept × (c' ≡ c)
      unfolding transform_row
      transform_row-RowGives i kept c' e =
          let (c₁, added, e') = >>=-eq-ok (add_variables_to_context inputs columns i c) _ e in
          let (r, found, e'') =
            >>=-eq-ok
              (kept_value js numerals runtime_parameters definitions
                (new_value js numerals runtime_parameters definitions t c₁) output.value_type c₁)
              _ e' in
          let (gives, same) =
            kept_value-RowGives i c₁ r.1 _ r.0 added
              (add_variables-keyword inputs columns i c c₁ added ∙ no_keyword) refl found in
          let e₃ = ok_injective e'' in
          (
            subst (RowGives i) (ap (λ x. x.0) e₃) gives,
            sym (ap (λ x. x.1) e₃)
                ∙ ap (remove_variables_from_context inputs) same
                ∙ remove-add inputs columns i c c₁ added
                ∙ remove_unbound inputs c unbound,
          )

      put_value-RowsGive :
          (i rows : ℕ) (kept : Option (Value N R)) (later : List (Value N R) × List ℕ)
          → RowGives i kept
          → RowsGive rows (suc i) later.0 later.1
          → RowsGive
              (suc rows)
              i
              ((put_value js numerals runtime_parameters definitions i kept later).0)
              ((put_value js numerals runtime_parameters definitions i kept later).1)
      put_value-RowsGive i rows none later g others = row_deleted g others
      put_value-RowsGive i rows (some v) later g others = row_kept g others

      transform_rows-RowsGive :
          (rows i : ℕ) (r : (List (Value N R) × List ℕ) × EvaluationContext N R)
          → transform_rows js numerals runtime_parameters definitions t inputs output columns rows i
              c
            ≡ ok r
          → RowsGive rows i r.0.0 r.0.1
      unfolding transform_rows
      transform_rows-RowsGive zero i r e =
          subst (λ x. RowsGive 0 i x.0.0 x.0.1) (ok_injective e) no_rows
      transform_rows-RowsGive (suc rows) i r e =
          let (o, row, e') =
            >>=-eq-ok
              (transform_row js numerals runtime_parameters definitions t inputs output columns i c)
              _ e in
          let (gives, same) = transform_row-RowGives i o.0 o.1 row in
          let (s, later, e'') =
            >>=-eq-ok
              (transform_rows js numerals runtime_parameters definitions t inputs output columns
                rows (suc i) o.1)
              _ e' in
          subst (λ x. RowsGive (suc rows) i x.0.0 x.0.1) (ok_injective e'')
            (put_value-RowsGive i rows o.0 s.0 gives (
              transform_rows-RowsGive rows (suc i) s (
                subst
                  (λ x.
                    transform_rows js numerals runtime_parameters definitions t inputs output
                      columns rows (suc i) x
                    ≡ ok s)
                  same later)))

  -- Outside of any expression constraint, and where no variable of the input ports has a value
  -- before: a transform that does not throw gives row by row the value of its expression on the values
  -- of that very row, in one and the same context, if there is a value and it is valid for the output
  -- type, and marks the row for deletion otherwise. The column has the output type.
  pub execute_transform-RowsGive :
      (t : Transform N R) (inputs : List PortDetails) (output : PortDetails)
      (columns : VariableColumns N R) (rows : ℕ) (c : EvaluationContext N R)
      (column : TableColumn (Value N R) ValueType) (rows_to_delete : List ℕ)
      → c.value_keyword_value ≡ none
      → AreUnbound inputs c
      → get_input_details t ≡ ok inputs
      → get_output_details t ≡ ok output
      → execute_transform js numerals runtime_parameters definitions t columns rows c
        ≡ ok (column, rows_to_delete)
      → RowsGive t inputs output columns c rows 0 column.values rows_to_delete
        × (column.value_type ≡ output.value_type)
  unfolding execute_transform
  execute_transform-RowsGive t inputs output columns rows c column deleted k u gi go e =
      let (inputs', gi', e') = >>=-eq-ok (get_input_details t) _ e in
      let (output', go', e'') = >>=-eq-ok (get_output_details t) _ e' in
      let (r, found, e₃) =
        >>=-eq-ok
          (transform_rows js numerals runtime_parameters definitions t inputs' output' columns rows
            0 c)
          _ e'' in
      let same_inputs = ok_injective (sym gi' ∙ gi) in
      let same_output = ok_injective (sym go' ∙ go) in
      let given : transform_rows js numerals runtime_parameters definitions t inputs output columns
            rows 0 c
          ≡ ok r =
        ap₂
          (λ is o.
            transform_rows js numerals runtime_parameters definitions t is o columns rows 0 c)
          (sym same_inputs) (sym same_output)
        ∙ found in
      (
        subst (λ x. RowsGive t inputs output columns c rows 0 x.0.values x.1) (ok_injective e₃)
            (transform_rows-RowsGive t inputs output columns c k u rows 0 r given),
        ap (λ x. x.0.value_type) (sym (ok_injective e₃)) ∙ ap (λ o. o.value_type) same_output,
      )
