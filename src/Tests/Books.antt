-- ===== src/Tests/Books.antt =====
-- Tests of workbooks, with sheets that are named by strokes.
use Prim.Native.String.{[] as no_stroke, ◌∷◌ as ◌◁◌, count}
use text.Mathlib.TextLemmas.{length-nil, length-cons}
use jayvee.Base.{ℕ, zero, suc, ◌≡◌, sym, ap, ◌∙◌, some, false, String, [], ◌∷◌}
use jayvee.Base.Dict.{has}
use jayvee.Sheet.{new_sheet}
use jayvee.Workbook.{Workbook, get_unique_default_name_for_new_sheet}
use jayvee.Workbook.Names.{get_unique_default_name-ended}

abbrev strokes : ℕ → String
strokes zero = no_stroke
strokes (suc n) = "I" ◁ strokes n

count-strokes : (n : ℕ) → count (strokes n) ≡ n
count-strokes zero = length-nil
count-strokes (suc n) = length-cons "I" (strokes n) ∙ ap suc (count-strokes n)

strokes_injective : (a b : ℕ) → strokes a ≡ strokes b → a ≡ b
strokes_injective a b e = sym (count-strokes a) ∙ ap count e ∙ count-strokes b

-- One sheet, whose name is the default name of a second one
abbrev one_sheet : Workbook
one_sheet = ("II", new_sheet []) ∷ []

get_unique_default_name-ended_example :
    (name : String) × (get_unique_default_name_for_new_sheet strokes 1 one_sheet ≡ some name)
    × (has name one_sheet ≡ false)
get_unique_default_name-ended_example =
    get_unique_default_name-ended strokes strokes_injective one_sheet
