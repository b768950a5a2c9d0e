-- ===== src/Cells/ColumnId/Exact.antt =====
-- Column letters as numbers in bijective base 26, with natural numbers of any size.
use native.Mathlib.Nat.{pow-suc, pow-succ'}
use mathlib.Core.List.{reverse-cons, append_assoc, append-nil}
use jayvee.Base.{
  ℕ, zero, suc, ◌+◌, ◌-◌, ◌*◌, ◌/◌, ◌%◌, ◌^◌, ◌≤◌, ◌<◌, ◌≡◌, ◌≢◌, refl, sym, ap, ◌∙◌, false, Option,
  none, some, List, [], ◌∷◌, ◌++◌, reverse, length-append, arith, ◌==◌, ==_iff, Bool-cases, inl,
  inr, length, All, if◌then◌else◌,
}
use jayvee.Cells.ColumnId.{character_of}

-- 'A' to 'Z'
abbrev pub IsLetter : ℕ → Type 0
IsLetter c = (b'A' ≤ c) × (c ≤ b'Z')

-- The value of column letters, as a number in bijective base 26.
unfoldable pub letters_value : List ℕ → ℕ
letters_value [] = 0
letters_value (c ∷ cs) = (c - 64) * 26 ^ length cs + letters_value cs

-- The value after a round, and the loop, with natural numbers of any size
abbrev pub exact_after : ℕ → ℕ
exact_after value = if value % 26 == 0 then value / 26 - 1 else value / 26

unfoldable pub exact_loop : ℕ → ℕ → List ℕ → Option (List ℕ)
exact_loop zero value characters = none
exact_loop (suc fuel) value characters =
    let characters' = character_of value ∷ characters in
    let rest = exact_loop fuel (exact_after value) characters' in
    if exact_after value == 0 then some characters' else rest

pub round_parts :
    (value : ℕ)
    → 0 < value
    → IsLetter (character_of value)
      × (character_of value - 64 + 26 * exact_after value ≡ value)
      × (exact_after value < value)
unfolding character_of
round_parts value p = (ground arith, ground arith, ground arith)

shift_digit :
    (value next digit power low : ℕ)
    → digit + 26 * next ≡ value
    → next * (power * 26) + (digit * power + low) ≡ value * power + low
shift_digit value next digit power low e = omega (arith, ap (λ (t : ℕ). t * power) e)

last_digit :
    (value next digit power low : ℕ)
    → digit + 26 * next ≡ value
    → next ≡ 0
    → digit * power + low ≡ value * power + low
last_digit value next digit power low e z =
    omega (arith, ap (λ (t : ℕ). t * power) e, ap (λ (t : ℕ). t * power) z)

-- The loop puts letters in front whose value is the number that it takes apart.
pub exact_loop_value :
    (fuel value : ℕ) (cs : List ℕ)
    → 0 < value
    → value ≤ fuel
    → All IsLetter cs
    → (out : List ℕ) × (exact_loop fuel value cs ≡ some out)
      × All IsLetter out
      × (letters_value out ≡ value * 26 ^ length cs + letters_value cs)
unfolding exact_loop letters_value
exact_loop_value zero value cs p h l = absurd (omega arith)
exact_loop_value (suc fuel) value cs p h l =
    let (letter, e, falls) = round_parts value p in
    elim (Bool-cases (exact_after value == 0)) [
      | inl last ↦ (
        character_of value ∷ cs,
        rw last,
        (letter, l),
        last_digit value (exact_after value) (character_of value - 64) _ _ e ((==_iff _ _).0 last),
      )
      | inr more ↦
          let (out, run, letters, v) =
            exact_loop_value fuel (exact_after value) (character_of value ∷ cs) (ground arith)
              (omega arith) (letter, l) in
          (
            out,
            rw more run,
            letters,
            v
                ∙ ap (λ t. exact_after value * t + letters_value (character_of value ∷ cs))
                    (pow-suc 26 (length cs))
                ∙ shift_digit value (exact_after value) (character_of value - 64) _ _ e,
          )
    ]

-- The value of letters that are read last first.
unfoldable pub rev_value : List ℕ → ℕ
rev_value [] = 0
rev_value (c ∷ cs) = (c - 64) + 26 * rev_value cs

letters_value-concat :
    (cs : List ℕ) (c : ℕ) → letters_value (cs ++ c ∷ []) ≡ 26 * letters_value cs + (c - 64)
unfolding letters_value
letters_value-concat [] c = omega arith
letters_value-concat (d ∷ cs) c =
    let power = pow-succ' 26 (length cs) in
    let len = length-append cs (c ∷ []) in
    let same : length (cs ++ c ∷ []) ≡ suc (length cs) = omega arith in
    rw (same, power, letters_value-concat cs c) (omega arith)

pub letters_value-reverse : (cs : List ℕ) → letters_value (reverse cs) ≡ rev_value cs
unfolding rev_value letters_value
letters_value-reverse [] = refl
letters_value-reverse (c ∷ cs) =
    rw (reverse-cons c cs)
      (letters_value-concat (reverse cs) c ∙ omega (arith, letters_value-reverse cs))

round_of_letter :
    (c v : ℕ)
    → IsLetter c
    → (character_of ((c - 64) + 26 * v) ≡ c) × (exact_after ((c - 64) + 26 * v) ≡ v)
unfolding character_of
round_of_letter c v (low, high) = (ground arith, ground arith)

rev_value_pos : (c : ℕ) (cs : List ℕ) → IsLetter c → 0 < rev_value (c ∷ cs)
unfolding rev_value
rev_value_pos c cs (low, high) = omega arith

exact_loop_more :
    (fuel v c w : ℕ) (acc : List ℕ)
    → character_of v ≡ c
    → exact_after v ≡ w
    → 0 < w
    → exact_loop (suc fuel) v acc ≡ exact_loop fuel w (c ∷ acc)
unfolding exact_loop
exact_loop_more fuel v c w acc same after p =
    let more : (exact_after v == 0) ≡ false = ground arith in rw (more, same, after) refl

exact_loop_last :
    (fuel v c : ℕ) (acc : List ℕ)
    → character_of v ≡ c
    → exact_after v ≡ 0
    → exact_loop (suc fuel) v acc ≡ some (c ∷ acc)
unfolding exact_loop
exact_loop_last fuel v c acc same after = rw (after, same) refl

reverse_regroup : (c : ℕ) (cs acc : List ℕ) → reverse cs ++ (c ∷ acc) ≡ reverse (c ∷ cs) ++ acc
reverse_regroup c cs acc = rw (reverse-cons c cs) (sym (append_assoc (reverse cs) (c ∷ []) acc))

exact_loop-rev_value :
    (fuel c : ℕ) (cs acc : List ℕ)
    → All IsLetter (c ∷ cs)
    → rev_value (c ∷ cs) ≤ fuel
    → exact_loop fuel (rev_value (c ∷ cs)) acc ≡ some (reverse (c ∷ cs) ++ acc)
unfolding rev_value
exact_loop-rev_value zero c cs acc (l, ls) h = absurd (omega (arith, rev_value_pos c cs l))
exact_loop-rev_value (suc fuel) c [] acc (l, ls) h =
    let (same, after) = round_of_letter c 0 l in exact_loop_last fuel _ c acc same after
exact_loop-rev_value (suc fuel) c (d ∷ cs) acc (l, (k, ls)) h =
    let (same, after) = round_of_letter c (rev_value (d ∷ cs)) l in
    let positive = rev_value_pos d cs k in
    let smaller : rev_value (d ∷ cs) ≤ fuel = omega arith in
    exact_loop_more fuel _ c (rev_value (d ∷ cs)) acc same after positive
    ∙ exact_loop-rev_value fuel d cs (c ∷ acc) (k, ls) smaller
    ∙ ap some (reverse_regroup c (d ∷ cs) acc)

pub exact_loop-reverse :
    (fuel : ℕ) (cs : List ℕ)
    → cs ≢ []
    → All IsLetter cs
    → rev_value cs ≤ fuel
    → exact_loop fuel (rev_value cs) [] ≡ some (reverse cs)
exact_loop-reverse fuel [] n l h = absurd (n refl)
exact_loop-reverse fuel (c ∷ cs) n l h =
    exact_loop-rev_value fuel c cs [] l h ∙ ap some (append-nil _)

pub rev_value-ne-zero : (cs : List ℕ) → cs ≢ [] → All IsLetter cs → 0 < rev_value cs
rev_value-ne-zero [] n l = absurd (n refl)
rev_value-ne-zero (c ∷ cs) n (l, ls) = rev_value_pos c cs l
