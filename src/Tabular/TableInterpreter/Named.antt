-- ===== src/Tabular/TableInterpreter/Named.antt =====
-- The columns of a table interpreter whose names pass the validation.
use text.Mathlib.Text.{◌==◌ as str_eq}
use text.Mathlib.TextEquality.{eq_iff}
use jayvee.Base.{
  ℕ, suc, ◌+◌, ◌≡◌, refl, sym, ap, ◌∙◌, subst, Bool, true, false, some, List, [], ◌∷◌, map, length,
  String, arith, Bool-cases, Option-cases, inl, inr, ◌⊎◌, Result, ok, err, ◌>>=◌, >>=-eq-ok,
  ok_injective, defined-eq-ok,
}
use jayvee.Base.Dict.{lookup, insert, has, has-insert}
use jayvee.Sheet.{Sheet, Cell}
use jayvee.Int.{pos, ltb_ℤ}
use jayvee.Expressions.{Value, Runtime, EvaluationContext}
use jayvee.Constraints.{Numerals}
use jayvee.Constraints.Validity.{Definitions}
use jayvee.Validation.{check_unique_names}
use jayvee.Validation.Names.{AreNew, includes_name, check_unique_names-AreNew}
use jayvee.Tabular.TableInterpreter.{
  InterpreterError, ColumnDefinition, ColumnDefinitionEntry, derive_without_header,
  derive_from_header, find_header, get_header_row, column_entries, parse_and_validate_value,
  put_cell, read_cells,
}
use jayvee.Tabular.TableInterpreter.Typed.{without_error-eq-ok}

abbrev pub definition_names : List ColumnDefinition → List String
definition_names ds = map (λ d. d.name) ds

abbrev entry_names : List ColumnDefinitionEntry → List String
entry_names es = map (λ e. e.column_name) es

AreNew-imp :
    (seen seen' ns : List String)
    → ((k : String) → includes_name seen k ≡ false → includes_name seen' k ≡ false)
    → AreNew seen ns
    → AreNew seen' ns
AreNew-imp seen seen' [] h a = tt
AreNew-imp seen seen' (n ∷ ns) h (p, a) =
    (h n p, AreNew-imp (n ∷ seen) (n ∷ seen') ns (λ k e. ground (arith, h k, e)) a)

-- A name that is none of the new ones can be counted among those seen.
AreNew-cons :
    (k : String) (seen ns : List String)
    → includes_name ns k ≡ false
    → AreNew seen ns
    → AreNew (k ∷ seen) ns
AreNew-cons k seen [] h a = tt
AreNew-cons k seen (n ∷ ns) h (p, a) = (
  ground (arith, h, p, eq_iff n k, eq_iff k n),
  AreNew-imp (k ∷ n ∷ seen) (n ∷ k ∷ seen) ns (λ j e. ground (arith, e))
      (AreNew-cons k (n ∷ seen) ns (ground (arith, h)) a),
)

-- The key that an object cannot get by an assignment.
prototype_lacks :
    (n : String) (seen : List String)
    → includes_name seen "__proto__" ≡ true
    → includes_name seen n ≡ false
    → str_eq n "__proto__" ≡ false
prototype_lacks n seen h p = elim (Bool-cases (str_eq n "__proto__")) [
  | inl same ↦
      let absurd : true ≡ false =
        sym h ∙ ap (includes_name seen) (sym ((eq_iff n "__proto__").0 same)) ∙ p in
      cc
  | inr other ↦ other
]

derive_without_header-AreNew :
    (seen : List String) (i : ℕ) (ds : List ColumnDefinition) (es : List ColumnDefinitionEntry)
    → AreNew seen (definition_names ds)
    → derive_without_header i ds ≡ ok es
    → AreNew seen (entry_names es)
unfolding derive_without_header
derive_without_header-AreNew seen i [] es a e =
    subst (λ x. AreNew seen (entry_names x)) (ok_injective e) tt
derive_without_header-AreNew seen i (d ∷ ds) es (p, a) e =
    let (t, _, e') = defined-eq-ok d.type _ e in
    let (others, derived, e'') = >>=-eq-ok (derive_without_header (suc i) ds) _ e' in
    subst (λ x. AreNew seen (entry_names x)) (ok_injective e'')
      (p, derive_without_header-AreNew (d.name ∷ seen) (suc i) ds others a derived)

derive_from_header-AreNew :
    (seen : List String) (ds : List ColumnDefinition) (header_row : List Cell)
    (es : List ColumnDefinitionEntry)
    → AreNew seen (definition_names ds)
    → derive_from_header ds header_row ≡ ok es
    → AreNew seen (entry_names es)
unfolding derive_from_header
derive_from_header-AreNew seen [] header_row es a e =
    subst (λ x. AreNew seen (entry_names x)) (ok_injective e) tt
derive_from_header-AreNew seen (d ∷ ds) header_row es (p, a) e =
    elim (Option-cases (find_header 0 d.name header_row)) [
      | inl missing ↦
          derive_from_header-AreNew seen ds header_row es
            (AreNew-imp (d.name ∷ seen) seen (definition_names ds) (λ k e'. ground (arith, e')) a)
            (rw (derive_from_header, missing) at e)
      | inr (i, found) ↦
          let (t, _, e') = defined-eq-ok d.type _ (rw (derive_from_header, found) at e) in
          let (others, derived, e'') = >>=-eq-ok (derive_from_header ds header_row) _ e' in
          subst (λ x. AreNew seen (entry_names x)) (ok_injective e'')
            (p, derive_from_header-AreNew (d.name ∷ seen) ds header_row others a derived)
    ]

length-insert :
    {V : Type 0} (k : String) (v : V) (m : List (String × V))
    → has k m ≡ false
    → length (insert k v m) ≡ suc (length m)
unfolding insert lookup
length-insert k v [] h = refl
length-insert k v ((j, w) ∷ m) h = ground (arith, length-insert k v m)

column_entries-AreNew :
    (seen : List String) (header : Bool) (ds : List ColumnDefinition) (sheet : Sheet)
    (es : List ColumnDefinitionEntry)
    → AreNew seen (definition_names ds)
    → column_entries header ds sheet ≡ ok es
    → AreNew seen (entry_names es)
column_entries-AreNew seen true ds sheet es a e =
    elim (Bool-cases (ltb_ℤ sheet.number_of_rows (pos 1))) [
      | inl empty ↦
          let absurd : ◌≡◌ {A = Result InterpreterError (List ColumnDefinitionEntry)} (err _)
              (ok es) =
            rw empty at e in
          cc
      | inr filled ↦
          let derived =
            without_error-eq-ok (get_header_row sheet >>= derive_from_header ds) es
              (rw filled at e) in
          let (row, _, e') = >>=-eq-ok (get_header_row sheet) _ derived in
          derive_from_header-AreNew seen ds row es a e'
    ]
column_entries-AreNew seen false ds sheet es a e =
    elim (Bool-cases (ltb_ℤ sheet.number_of_columns (pos (length ds)))) [
      | inl few ↦
          let absurd : ◌≡◌ {A = Result InterpreterError (List ColumnDefinitionEntry)} (err _)
              (ok es) =
            rw few at e in
          cc
      | inr enough ↦
          derive_without_header-AreNew seen 0 ds es a
            (without_error-eq-ok (derive_without_header 0 ds) es (rw enough at e))
    ]

module _ {N R : Type 0} (js : Runtime N R) (numerals : Numerals N)
    (runtime_parameters : List (String × String)) (definitions : Definitions N R) where
  invalid_stays :
      (sheet_row : List Cell) (es : List ColumnDefinitionEntry) (row : List (String × Value N R))
      (c : EvaluationContext N R) (r : (Bool × List (String × Value N R)) × EvaluationContext N R)
      → read_cells js numerals runtime_parameters definitions sheet_row es true row c ≡ ok r
      → r.0.0 ≡ true
  unfolding read_cells
  invalid_stays sheet_row [] row c r e = ap (λ x. x.0.0) (sym (ok_injective e))
  invalid_stays sheet_row (entry ∷ es) row c r e =
      let (o, _, e') =
        >>=-eq-ok (parse_and_validate_value js numerals runtime_parameters definitions _ _ c) _ e in
      elim (Option-cases o.0) [
        | inl undefined ↦ invalid_stays sheet_row es row o.1 r (rw undefined at e')
        | inr (v, parsed) ↦
            invalid_stays sheet_row es (put_cell entry.column_name (some v) row) o.1 r
              (rw parsed at e')
      ]

  -- A row of which every cell is valid has a value for each of the new names.
  read_cells-length :
      (sheet_row : List Cell) (es : List ColumnDefinitionEntry) (seen : List String)
      (row : List (String × Value N R)) (c : EvaluationContext N R)
      (r : (Bool × List (String × Value N R)) × EvaluationContext N R)
      → AreNew seen (entry_names es)
      → includes_name seen "__proto__" ≡ true
      → ((k : String) → includes_name seen k ≡ false → has k row ≡ false)
      → read_cells js numerals runtime_parameters definitions sheet_row es false row c ≡ ok r
      → r.0.0 ≡ true ⊎ (length r.0.1 ≡ length row + length es)
  unfolding read_cells
  read_cells-length sheet_row [] seen row c r a q h e =
      inr (omega (arith, ap (λ x. length x.0.1) (ok_injective e)))
  read_cells-length sheet_row (entry ∷ es) seen row c r (p, a) q h e =
      let (o, _, e') =
        >>=-eq-ok (parse_and_validate_value js numerals runtime_parameters definitions _ _ c) _ e in
      elim (Option-cases o.0) [
        | inl undefined ↦ inl (invalid_stays sheet_row es row o.1 r (rw undefined at e'))
        | inr (v, parsed) ↦
            let longer = length-insert entry.column_name v row (h entry.column_name p) in
            let own = prototype_lacks entry.column_name seen q p in
            elim (read_cells-length sheet_row es (entry.column_name ∷ seen)
              (insert entry.column_name v row) o.1 r a (ground (arith, q))
              (λ k e₂. has-insert entry.column_name k v row ∙ ground (arith, h k, e₂))
              (rw (parsed, own) at e')) [
                | inl invalid ↦ inl invalid
                | inr counted ↦ inr (omega (arith, counted, longer))
              ]
      ]

  -- When the check of unique names reports nothing on the column definitions, and none of them is
  -- named `__proto__`, a row whose cells are all valid has a key for each column.
  pub read_cells-counted :
      (header : Bool) (ds : List ColumnDefinition) (sheet : Sheet) (es : List ColumnDefinitionEntry)
      (sheet_row : List Cell) (c : EvaluationContext N R)
      (r : (Bool × List (String × Value N R)) × EvaluationContext N R)
      → check_unique_names (definition_names ds) ≡ []
      → includes_name (definition_names ds) "__proto__" ≡ false
      → column_entries header ds sheet ≡ ok es
      → read_cells js numerals runtime_parameters definitions sheet_row es false [] c ≡ ok r
      → r.0.0 ≡ true ⊎ (length r.0.1 ≡ length es)
  unfolding lookup
  read_cells-counted header ds sheet es sheet_row c r unique own entries read =
      let seen : List String = "__proto__" ∷ [] in
      let names = AreNew-cons "__proto__" [] _ own (check_unique_names-AreNew _ unique) in
      let new = column_entries-AreNew seen header ds sheet es names entries in
      elim (read_cells-length sheet_row es seen [] c r new refl (λ k e. refl) read) [
        | inl invalid ↦ inl invalid
        | inr counted ↦ inr (omega (arith, counted))
      ]
