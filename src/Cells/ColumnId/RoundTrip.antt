-- ===== src/Cells/ColumnId/RoundTrip.antt =====
-- Column letters and column indexes determine each other, for numbers that doubles hold exactly.
use native.Mathlib.Nat.{le_refl, pow-le-pow_right, pow-suc}
use mathlib.Core.List.{reverse-reverse}
use jayvee.Base.{
  ℕ, zero, suc, ◌+◌, ◌-◌, ◌*◌, ◌/◌, ◌%◌, ◌^◌, ◌≤◌, ◌<◌, ◌≡◌, ◌≢◌, refl, sym, ap, ◌∙◌, some, List,
  [], ◌∷◌, reverse, arith, ◌==◌, Bool-cases, inl, inr, length, All, All-reverse,
}
use jayvee.Int.{pos, ◌-ℤ◌, pos_part, sub_ℕ, +ℤ-pos, -ℤ-pos, *ℤ-pos}
use jayvee.Cells.ColumnId.{
  Doubles, character_of, value_after, characters_loop, column_index_as_characters, index_from,
  column_characters_as_index,
}
use jayvee.Cells.ColumnId.Exact.{
  IsLetter, letters_value, exact_after, exact_loop, exact_loop_value, rev_value,
  letters_value-reverse, exact_loop-reverse, rev_value-ne-zero,
}

-- Doubles are exact on natural numbers below 2 ^ 53, and so is the quotient of one by 26.
pub record IsExact (doubles : Doubles) : Type 0 where
  pub rounding : (n : ℕ) → n < 2 ^ 53 → doubles.rounded (pos n) ≡ pos n
  pub division : (n : ℕ) → n < 2 ^ 53 → doubles.floor_quotient n ≡ n / 26

one_factor : (k p : ℕ) → 1 ≤ k → p ≤ k * p
one_factor k p l = grind arith

at_most : (k m p : ℕ) → k ≤ m → k * p ≤ m * p
at_most k m p l = grind arith

module _ (doubles : Doubles) (exact : IsExact doubles) where
  index_from-pos :
      (a : ℕ) (cs : List ℕ)
      → All IsLetter cs
      → a + letters_value cs < 2 ^ 53
      → index_from doubles (pos a) cs ≡ pos (a + letters_value cs)
  unfolding index_from letters_value
  index_from-pos a [] h l = ap pos (omega arith)
  index_from-pos a (c ∷ cs) ((low, high), h) l =
      let e : sub_ℕ (c + 1) 65 ≡ pos (c - 64) = ground arith in
      let factor : 26 ^ length cs ≤ (c - 64) * 26 ^ length cs =
        one_factor (c - 64) (26 ^ length cs) (omega (arith, low)) in
      rw
        (
          exact.rounding (26 ^ length cs) (omega (arith, factor, l)),
          e,
          *ℤ-pos,
          exact.rounding ((c - 64) * 26 ^ length cs) (omega (arith, l)),
          +ℤ-pos,
          exact.rounding (a + (c - 64) * 26 ^ length cs) (omega (arith, l)),
        )
        (index_from-pos (a + (c - 64) * 26 ^ length cs) cs h (omega (arith, l))
          ∙ ap pos (omega arith))

  value_after-exact : (value : ℕ) → value < 2 ^ 53 → value_after doubles value ≡ exact_after value
  unfolding value_after
  value_after-exact value l = elim (Bool-cases (value % 26 == 0)) [
    | inl whole ↦
        rw (whole, exact.division value l)
          (ap pos_part (exact.rounding (value / 26 - 1) (omega (arith, l))))
    | inr rest ↦ rw rest (exact.division value l)
  ]

  characters_loop-exact :
      (fuel value : ℕ) (cs : List ℕ)
      → value < 2 ^ 53
      → characters_loop doubles fuel value cs ≡ exact_loop fuel value cs
  unfolding characters_loop exact_loop
  characters_loop-exact zero value cs l = refl
  characters_loop-exact (suc fuel) value cs l =
      let falls : exact_after value ≤ value = ground arith in
      rw
        (
          value_after-exact value l,
          characters_loop-exact fuel (exact_after value) (character_of value ∷ cs)
              (omega (arith, falls, l)),
        )
        refl

  index_of_value :
      (n : ℕ) (letters : List ℕ)
      → n + 1 < 2 ^ 53
      → All IsLetter letters
      → letters_value letters ≡ n + 1
      → column_characters_as_index doubles letters ≡ pos n
  unfolding column_characters_as_index
  index_of_value n letters small l v =
      ap (λ z. doubles.rounded (z -ℤ pos 1)) (index_from-pos 0 letters l (omega (arith, v, small)))
      ∙ ap doubles.rounded
          (-ℤ-pos (0 + letters_value letters) 1 (omega (arith, v)) ∙ ap pos (omega (arith, v)))
      ∙ exact.rounding n (omega (arith, small))

  characters_of_value :
      (n : ℕ)
      → n + 1 < 2 ^ 53
      → column_index_as_characters doubles n ≡ exact_loop (n + 1) (n + 1) []
  unfolding column_index_as_characters
  characters_of_value n small =
      rw (exact.rounding (n + 1) small) (characters_loop-exact (n + 1) (n + 1) [] small)

  -- On doubles that are exact below 2 ^ 53, for a column index n with n + 1 below that bound: reading
  -- the letters that stand for n gives n back, and they are letters from 'A' to 'Z'.
  pub column_characters_as_index-column_index_as_characters :
      (n : ℕ)
      → n + 1 < 2 ^ 53
      → (letters : List ℕ) × (column_index_as_characters doubles n ≡ some letters)
        × All IsLetter letters
        × (column_characters_as_index doubles letters ≡ pos n)
  unfolding letters_value
  column_characters_as_index-column_index_as_characters n small =
      let (out, run, letters, v) =
        exact_loop_value (n + 1) (n + 1) [] (omega arith) (omega arith) tt in
      (
        out,
        characters_of_value n small ∙ run,
        letters,
        index_of_value n out small letters (v ∙ omega arith),
      )

  -- Letters are worth less than the power of 26 for one more letter.
  letters_value-bound :
      (cs : List ℕ) → All IsLetter cs → 25 * letters_value cs + 26 ≤ 26 * 26 ^ length cs
  unfolding letters_value
  letters_value-bound [] h = omega arith
  letters_value-bound (c ∷ cs) ((low, high), h) =
      let power = pow-suc 26 (length cs) in
      let most : (c - 64) * 26 ^ length cs ≤ 26 * 26 ^ length cs =
        at_most (c - 64) 26 (26 ^ length cs) (omega (arith, high)) in
      omega (arith, letters_value-bound cs h, most, power)

  -- On doubles that are exact below 2 ^ 53: writing the index that a text of one to eleven letters from
  -- 'A' to 'Z' stands for gives the text back.
  pub column_index_as_characters-column_characters_as_index :
      (letters : List ℕ)
      → letters ≢ []
      → All IsLetter letters
      → length letters ≤ 11
      → (n : ℕ) × (column_characters_as_index doubles letters ≡ pos n)
        × (column_index_as_characters doubles n ≡ some letters)
  column_index_as_characters-column_characters_as_index letters n l short =
      let back = reverse-reverse letters in
      let l' = All-reverse IsLetter letters l in
      let ne : reverse letters ≢ [] = λ e. n (sym back ∙ ap reverse e) in
      let v = letters_value-reverse (reverse letters) in
      let same : letters_value letters ≡ rev_value (reverse letters) =
        ap letters_value (sym back) ∙ v in
      let positive = rev_value-ne-zero (reverse letters) ne l' in
      let k = rev_value (reverse letters) - 1 in
      let again : k + 1 ≡ rev_value (reverse letters) = omega (arith, positive) in
      let small : k + 1 < 2 ^ 53 = omega (
        arith,
        again,
        same,
        letters_value-bound letters l,
        pow-le-pow_right {n = 26} (omega arith) short,
      ) in
      (
        k,
        index_of_value k letters small l (same ∙ sym again),
        characters_of_value k small
            ∙ rw again (exact_loop-reverse _ (reverse letters) ne l' (le_refl _) ∙ ap some back),
      )
