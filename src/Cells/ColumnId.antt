-- ===== src/Cells/ColumnId.antt =====
-- util/column-id-util.ts: column letters and column indexes. A text is the list of its char codes. The
-- arithmetic of JavaScript's numbers is a parameter.
pub mod Exact
pub mod RoundTrip
use jayvee.Base.{
  ℕ, zero, suc, ◌+◌, ◌-◌, ◌*◌, ◌%◌, ◌^◌, Bool, Option, none, some, List, [], ◌∷◌, ◌==◌,
  if◌then◌else◌, length,
}
use jayvee.Int.{ℤ, pos, pos_part, sub_ℕ, ◌+ℤ◌, ◌-ℤ◌, ◌*ℤ◌}

-- `characterOffset`, the code of 'A', and `numberOfCharacters`
abbrev pub character_offset : ℕ
character_offset = b'A'

abbrev pub last_character : ℕ
last_character = b'Z'

abbrev pub number_of_characters : ℕ
number_of_characters = last_character - character_offset + 1

-- The arithmetic of doubles: the double that a result, which is an integer, is rounded to, and
-- `Math.floor(value / numberOfCharacters)`. The remainder of two integers is exact.
pub record Doubles : Type 0 where
  pub rounded : ℤ → ℤ
  pub floor_quotient : ℕ → ℕ

-- The double of a natural number
abbrev pub rounded_ℕ : Doubles → ℕ → ℕ
rounded_ℕ doubles n = pos_part (doubles.rounded (pos n))

-- The character that one round puts in front, and the value that it leaves.
unfoldable pub character_of : ℕ → ℕ
character_of value =
    let remainder = value % number_of_characters in
    if remainder == 0 then last_character else remainder + character_offset - 1

unfoldable pub value_after : Doubles → ℕ → ℕ
value_after doubles value =
    let quotient = doubles.floor_quotient value in
    if value % number_of_characters == 0 then rounded_ℕ doubles (quotient - 1) else quotient

-- The `do … while (value > 0)` loop, with fuel; `none` means that the fuel ran out.
unfoldable pub characters_loop : Doubles → ℕ → ℕ → List ℕ → Option (List ℕ)
characters_loop doubles zero value characters = none
characters_loop doubles (suc fuel) value characters =
    let characters' = character_of value ∷ characters in
    let rest = characters_loop doubles fuel (value_after doubles value) characters' in
    if value_after doubles value == 0 then some characters' else rest

-- `columnIndexAsCharacters`, for an index that is not negative.
unfoldable pub column_index_as_characters : Doubles → ℕ → Option (List ℕ)
unfolding characters_loop
column_index_as_characters doubles column_index =
    let value = rounded_ℕ doubles (column_index + 1) in characters_loop doubles value value []

-- The `for` loop of `columnCharactersAsIndex`: `length - 1 - position` characters follow a position.
unfoldable pub index_from : Doubles → ℤ → List ℕ → ℤ
index_from doubles column_index [] = column_index
index_from doubles column_index (char_code ∷ rest) =
    let character_index = sub_ℕ (char_code + 1) character_offset in
    let factor = doubles.rounded (pos (number_of_characters ^ length rest)) in
    let added = doubles.rounded (character_index *ℤ factor) in
    index_from doubles (doubles.rounded (column_index +ℤ added)) rest

unfoldable pub column_characters_as_index : Doubles → List ℕ → ℤ
unfolding index_from
column_characters_as_index doubles column_characters =
    doubles.rounded (index_from doubles (pos 0) column_characters -ℤ pos 1)
