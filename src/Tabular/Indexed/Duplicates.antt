-- ===== src/Tabular/Indexed/Duplicates.antt =====
-- What `removeDuplicateColumns` and `removeDuplicateRows` remove.
use jayvee.Base.{
  ℕ, zero, suc, ◌<◌, ◌≤◌, ◌≡◌, refl, sym, ap, ◌∙◌, List, [], ◌∷◌, ◌++◌, none, some, arith, length,
  length-append, get_elem?, if◌then◌else◌, Bool-cases, inl, inr,
}
use mathlib.Core.List.{append_assoc, append-nil}
use jayvee.Int.{eqb_ℤ}
use jayvee.Tabular.Indexed.{Indexed, remove_duplicates_from, remove_duplicates}

-- The columns without the first one that repeats the index of the one before it.
unfoldable pub drop_first_repeat : Indexed → List Indexed → List Indexed
drop_first_repeat before [] = []
drop_first_repeat before (c ∷ cs) = if eqb_ℤ before.0 c.0 then cs else c ∷ drop_first_repeat c cs

get_elem?-past_end : (xs : List Indexed) (i : ℕ) → length xs ≤ i → get_elem? xs i ≡ none
get_elem?-past_end [] i h = refl
get_elem?-past_end (x ∷ xs) zero h = elim h [ ]
get_elem?-past_end (x ∷ xs) (suc i) h = get_elem?-past_end xs i (omega arith)

get_elem?-last : (xs : List Indexed) (x : Indexed) → get_elem? (xs ++ x ∷ []) (length xs) ≡ some x
get_elem?-last [] x = refl
get_elem?-last (y ∷ xs) x = get_elem?-last xs x

-- Once the array is shorter than the index, everything is kept.
remove_duplicates_from-behind :
    (previous : List Indexed) (index : ℕ) (cs : List Indexed)
    → length previous < index
    → remove_duplicates_from previous index cs ≡ previous ++ cs
unfolding remove_duplicates_from
remove_duplicates_from-behind previous index [] h = sym (append-nil previous)
remove_duplicates_from-behind previous zero (c ∷ cs) h = elim h [ ]
remove_duplicates_from-behind previous (suc index) (c ∷ cs) h =
    rw (get_elem?-past_end previous index (omega arith)) (
      remove_duplicates_from-behind (previous ++ c ∷ []) (suc (suc index)) cs
        (omega (arith, length-append previous (c ∷ [])))
      ∙ append_assoc previous (c ∷ []) cs)

level_step :
    (previous : List Indexed) (before c : Indexed) (cs : List Indexed)
    → remove_duplicates_from
        ((previous ++ before ∷ []) ++ c ∷ [])
        (suc (length (previous ++ before ∷ [])))
        cs
      ≡ (previous ++ before ∷ []) ++ c ∷ drop_first_repeat c cs
    → remove_duplicates_from ((previous ++ before ∷ []) ++ c ∷ []) (suc (suc (length previous))) cs
      ≡ previous ++ before ∷ c ∷ drop_first_repeat c cs
level_step previous before c cs h =
    let same : length (previous ++ before ∷ []) ≡ suc (length previous) =
      omega (arith, length-append previous (before ∷ [])) in
    ap (λ n. remove_duplicates_from ((previous ++ before ∷ []) ++ c ∷ []) (suc n) cs) (sym same)
    ∙ h
    ∙ append_assoc previous (before ∷ []) (c ∷ drop_first_repeat c cs)

remove_duplicates_from-level :
    (previous : List Indexed) (before : Indexed) (cs : List Indexed)
    → remove_duplicates_from (previous ++ before ∷ []) (suc (length previous)) cs
      ≡ previous ++ before ∷ drop_first_repeat before cs
unfolding remove_duplicates_from drop_first_repeat
remove_duplicates_from-level previous before [] = refl
remove_duplicates_from-level previous before (c ∷ cs) =
    rw (get_elem?-last previous before) (elim (Bool-cases (eqb_ℤ before.0 c.0)) [
      | inl same ↦ rw same (
          remove_duplicates_from-behind (previous ++ before ∷ []) (suc (suc (length previous))) cs
            (omega (arith, length-append previous (before ∷ [])))
          ∙ append_assoc previous (before ∷ []) cs)
      | inr other ↦ rw other (
          level_step previous before c cs
            (remove_duplicates_from-level (previous ++ before ∷ []) c cs))
    ])

-- Of an array with an element, `removeDuplicateColumns` removes the first column that repeats the index of
-- the one before it, and no other.
pub remove_duplicates-eq :
    (c : Indexed) (cs : List Indexed) → remove_duplicates (c ∷ cs) ≡ c ∷ drop_first_repeat c cs
unfolding remove_duplicates remove_duplicates_from
remove_duplicates-eq c cs = remove_duplicates_from-level [] c cs
