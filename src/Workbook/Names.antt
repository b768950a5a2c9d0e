-- ===== src/Workbook/Names.antt =====
-- The while loop of `getUniqueDefaultNameForNewSheet` ends: there are more candidates than sheets.
use text.Mathlib.Text.{◌==◌ as str_eq}
use text.Mathlib.TextEquality.{eq_iff}
use jayvee.Base.{
  ℕ, zero, suc, ◌+◌, ◌≤◌, ◌<◌, ◌≡◌, refl, sym, true, false, Option, none, some, length, String,
  arith, Bool-cases, inl, inr, not_same, ◌==◌, ==_iff, subst,
}
use jayvee.Base.Dict.{erase, has}
use jayvee.Base.Cover.{length-erase, has-erase}
use jayvee.Workbook.{Workbook, find_free_name, get_unique_default_name_for_new_sheet}

module _ (sheet_name_of : ℕ → String)
    (injective : (a b : ℕ) → sheet_name_of a ≡ sheet_name_of b → a ≡ b) where
  other_name : (a b : ℕ) → a < b → str_eq (sheet_name_of b) (sheet_name_of a) ≡ false
  other_name a b l = elim (Bool-cases (str_eq (sheet_name_of b) (sheet_name_of a))) [
    | inl same ↦
        let e = injective b a ((eq_iff (sheet_name_of b) (sheet_name_of a)).0 same) in
        let absurd : ⊥ = omega (arith, e, l) in elim absurd [ ]
    | inr other ↦ other
  ]

  -- As many names that are taken, so many sheets
  taken_names :
      (n number : ℕ) (w : Workbook)
      → ((b : ℕ) → number ≤ b → b ≤ number + n → has (sheet_name_of b) w ≡ true)
      → suc n ≤ length w
  taken_names zero number w taken =
      omega
        (arith, length-erase (sheet_name_of number) w (taken number (omega arith) (omega arith)))
  taken_names (suc n) number w taken =
      let first =
        length-erase (sheet_name_of number) w (taken number (omega arith) (omega arith)) in
      let others = taken_names n (suc number) (erase (sheet_name_of number) w) (λ b l u.
        has-erase (sheet_name_of number) (sheet_name_of b) w (other_name number b (omega arith))
          (taken b (omega arith) (omega arith))) in
      omega (arith, first, others)

  -- The name that is found is free, and where none is found all candidates are taken.
  abbrev IsSearched : ℕ → ℕ → Workbook → Option String → Type 0
  IsSearched n number w none =
      (b : ℕ) → number ≤ b → b ≤ number + n → has (sheet_name_of b) w ≡ true
  IsSearched n number w (some name) = has name w ≡ false

  from_next :
      (n number : ℕ) (w : Workbook)
      → has (sheet_name_of number) w ≡ true
      → (o : Option String) → IsSearched n (suc number) w o
      → IsSearched (suc n) number w o
  from_next n number w taken none s = λ b l u. elim (Bool-cases (b == number)) [
    | inl same ↦ subst (λ k. has (sheet_name_of k) w ≡ true) (sym ((==_iff b number).0 same)) taken
    | inr other ↦ s b (omega (arith, l, not_same b number other)) (omega (arith, u))
  ]
  from_next n number w taken (some name) s = s

  find_free_name-IsSearched :
      (n number : ℕ) (w : Workbook)
      → IsSearched n number w (find_free_name sheet_name_of n number w)
  unfolding find_free_name
  find_free_name-IsSearched zero number w = elim (Bool-cases (has (sheet_name_of number) w)) [
    | inl taken ↦ rw taken (λ b l u.
        let e : number ≡ b = omega (arith, l, u) in
        subst (λ k. has (sheet_name_of k) w ≡ true) e taken)
    | inr free ↦ rw free free
  ]
  find_free_name-IsSearched (suc n) number w = elim (Bool-cases (has (sheet_name_of number) w)) [
    | inl taken ↦ rw taken (
        from_next n number w taken (find_free_name sheet_name_of n (suc number) w)
          (find_free_name-IsSearched n (suc number) w))
    | inr free ↦ rw free free
  ]

  -- When new sheets are named after distinct texts for distinct numbers, the loop that looks for a
  -- default name ends after at most as many turns as the workbook has sheets, with a name that no
  -- sheet has.
  pub get_unique_default_name-ended :
      (w : Workbook)
      → (name : String) × (get_unique_default_name_for_new_sheet sheet_name_of (length w) w
          ≡ some name)
        × (has name w ≡ false)
  unfolding get_unique_default_name_for_new_sheet
  get_unique_default_name-ended w =
      found (find_free_name sheet_name_of (length w) (suc (length w)) w) refl
        (find_free_name-IsSearched (length w) (suc (length w)) w)
    where
      found :
          (o : Option String)
          → find_free_name sheet_name_of (length w) (suc (length w)) w ≡ o
          → IsSearched (length w) (suc (length w)) w o
          → (name : String) × (find_free_name sheet_name_of (length w) (suc (length w)) w
              ≡ some name)
            × (has name w ≡ false)
      found none e s =
          let absurd : ⊥ = omega (arith, taken_names (length w) (suc (length w)) w s) in
          elim absurd [ ]
      found (some name) e s = (name, e, s)
