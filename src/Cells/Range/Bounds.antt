-- ===== src/Cells/Range/Bounds.antt =====
-- Relative indexes and bounds of a cell range.
use jayvee.Base.{◌≡◌, refl, true, false, ◌&&◌, arith, if◌then◌else◌, Bool-cases, inl, inr, ap₂, ap}
use mathlib.Core.Bool.{and-eq-true_iff}
use jayvee.Int.{ℤ}
use jayvee.Cells.Index.{
  CellIndex, CellIndexBounds, is_last, index_has_relative, resolve_index, index_in_bounds,
  is_index_in_bounds,
}
use jayvee.Cells.Range.{
  CellRange, CellReference, range_literal, is_column_wrapper, spans_column, range_in_bounds,
  resolve_range, range_has_relative,
}

-- No last index of the bounds is `LAST_INDEX` itself.
abbrev pub IsProper : CellIndexBounds → Type 0
IsProper b = (is_last b.last_column_index ≡ false) × (is_last b.last_row_index ≡ false)

one_relative :
    (limit i : ℤ) → is_last limit ≡ false → is_last (if is_last i then limit else i) ≡ false
one_relative limit i p = elim (Bool-cases (is_last i)) [
  | inl last ↦ rw last p
  | inr other ↦ rw other other
]

one_in_bounds :
    (limit i : ℤ)
    → is_index_in_bounds (if is_last i then limit else i) limit ≡ is_index_in_bounds i limit
unfolding is_index_in_bounds
one_in_bounds limit i = elim (Bool-cases (is_last i)) [
  | inl last ↦ rw last (ground arith)
  | inr other ↦
      let same : (if is_last i then limit else i) ≡ i = rw other refl in
      ap (λ j. is_index_in_bounds j limit) same
]

resolve_index-relative :
    (b : CellIndexBounds) (c : CellIndex)
    → IsProper b
    → index_has_relative (resolve_index b c) ≡ false
unfolding index_has_relative resolve_index
resolve_index-relative b c (p, q) =
    rw
      (
        one_relative b.last_column_index c.column_index p,
        one_relative b.last_row_index c.row_index q,
      )
      refl

index_in_bounds-resolve_index :
    (b : CellIndexBounds) (c : CellIndex)
    → index_in_bounds b (resolve_index b c) ≡ index_in_bounds b c
unfolding index_in_bounds resolve_index
index_in_bounds-resolve_index b c =
    ap₂ (◌&&◌) (one_in_bounds b.last_column_index c.column_index)
      (one_in_bounds b.last_row_index c.row_index)

-- Resolving a range against bounds whose last indexes are not `LAST_INDEX` leaves no relative index,
-- and the range lies in the bounds exactly when it did before.
pub resolve_range_lem :
    (b : CellIndexBounds) (r : CellRange)
    → IsProper b
    → (range_has_relative (resolve_range b r) ≡ false)
      × (range_in_bounds b (resolve_range b r) ≡ range_in_bounds b r)
unfolding range_has_relative resolve_range range_in_bounds
resolve_range_lem b r p = (
  rw (resolve_index-relative b r.from p, resolve_index-relative b r.to p) refl,
  ap₂ (◌&&◌) (index_in_bounds-resolve_index b r.from) (index_in_bounds-resolve_index b r.to),
)

spans_of_wrapper :
    (r : CellRange) (c d : CellReference)
    → r.ast_node ≡ range_literal c d
    → is_column_wrapper r ≡ true
    → spans_column r.from r.to ≡ true
unfolding is_column_wrapper
spans_of_wrapper r c d e h = ground arith

resolved_end :
    (limit i : ℤ)
    → is_last limit ≡ false
    → is_last i ≡ true
    → is_last (if is_last i then limit else i) ≡ false
resolved_end limit i p h = rw h p

unresolved :
    (b : CellIndexBounds) (r : CellRange) (c d : CellReference)
    → r.ast_node ≡ range_literal c d
    → is_last (resolve_index b r.to).row_index ≡ false
    → is_column_wrapper (resolve_range b r) ≡ false
unfolding is_column_wrapper resolve_range
unresolved b r c d e h = ground arith

-- A column that is written as a range literal, as `range A1:A*`, is no column any more once its
-- indexes are resolved against bounds whose last indexes are not `LAST_INDEX`.
pub resolved_range_literal :
    (b : CellIndexBounds) (r : CellRange) (c d : CellReference)
    → IsProper b
    → r.ast_node ≡ range_literal c d
    → is_column_wrapper r ≡ true
    → is_column_wrapper (resolve_range b r) ≡ false
unfolding resolve_index
resolved_range_literal b r c d p e h =
    let spans : spans_column r.from r.to ≡ true = spans_of_wrapper r c d e h in
    let open_end = (and-eq-true_iff _ _).0 ((and-eq-true_iff _ _).0 spans).1 in
    unresolved b r c d e (resolved_end b.last_row_index r.to.row_index p.1 open_end.1)
