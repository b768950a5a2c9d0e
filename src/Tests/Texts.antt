-- ===== src/Tests/Texts.antt =====
-- Tests of the blocks on text files and of the retries.
use jayvee.Base.Removal.{skip}
use jayvee.Base.{ℕ, zero, suc, ◌≡◌, arith, [], ◌∷◌, ◌↔◌, Result, ok, err, String}
use jayvee.Standard.{TextFile, execute_line_deleter, execute_http_extractor}
use jayvee.Standard.Lines.{line, execute_line_deleter-eq}
use jayvee.Standard.Retries.{IsFirstSuccess, execute_http_extractor_iff}

abbrev poem : TextFile
poem = record {
  name = "poem";
  extension = "txt";
  mime_type = "text/plain";
  content = "a" ∷ "b" ∷ "c" ∷ "d" ∷ [];
}

execute_line_deleter-eq_example :
    execute_line_deleter (line 2 ∷ line 0 ∷ line 2 ∷ []) poem
    ≡ ok (record poem { content = "b" ∷ "d" ∷ [] })
unfolding skip
execute_line_deleter-eq_example =
    execute_line_deleter-eq (2 ∷ 0 ∷ 2 ∷ []) poem (omega arith, (omega arith, (omega arith, tt)))

-- The first two attempts fail.
abbrev fetch : ℕ → Result String String
fetch zero = err "timeout"
fetch (suc zero) = err "refused"
fetch (suc (suc n)) = ok "data"

execute_http_extractor_iff_example :
    execute_http_extractor fetch 3 ≡ ok "data" ↔ IsFirstSuccess fetch 0 3 "data"
execute_http_extractor_iff_example = execute_http_extractor_iff fetch 3 "data"
