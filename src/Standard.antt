-- ===== src/Standard.antt =====
-- libs/extensions/std/exec/src: file-picker-executor.ts, text-file-interpreter-executor.ts with
-- splitLines of libs/execution/src/lib/util/string-util.ts, text-line-deleter-executor.ts, text-range-selector-executor.ts,
-- the retry loop of http-extractor-executor.ts and util/backoff-strategy.ts. The network is a
-- parameter: what the attempts to fetch the file give.
pub mod Lines
pub mod Retries
use text.Mathlib.Text.{◌==◌ as str_eq}
use jayvee.Base.{
  ℕ, zero, suc, Bool, true, false, ◌||◌, List, [], ◌∷◌, reverse, length, if◌then◌else◌, Result,
  NoError, ok, err, throws, Option, none, some, ◌>>=◌, ◌>>◌, assert, String,
}
use jayvee.Int.{ℤ, pos, ◌-ℤ◌, leb_ℤ, ltb_ℤ, eqb_ℤ}
use jayvee.Sheet.{splice, slice}
use jayvee.FileSystem.{FileSystemNode, FileSystemFile}
use jayvee.FileSystem.Paths.{get_file}
use jayvee.Expressions.{Runtime}

-- `TextFile`
pub record TextFile : Type 0 where
  pub name : String
  pub extension : String
  pub mime_type : String
  pub content : List String

pub data TextError : Type 0 where
  no_such_line : TextError

-- The loop that rejects lines past the end
unfoldable pub check_lines : ℕ → List ℤ → Result TextError (Unit {0})
check_lines number_of_lines [] = ok tt
check_lines number_of_lines (line_number ∷ lines) =
    let others = check_lines number_of_lines lines in
    if ltb_ℤ (pos number_of_lines) line_number then err no_such_line else others

-- `new Set(lines)`, behind the lines `seen`
abbrev pub includes_ℤ : List ℤ → ℤ → Bool
includes_ℤ [] n = false
includes_ℤ (m ∷ ns) n = eqb_ℤ m n || includes_ℤ ns n

unfoldable pub distinct_lines : List ℤ → List ℤ → List ℤ
distinct_lines seen [] = []
distinct_lines seen (n ∷ ns) =
    let later = distinct_lines seen ns in
    let new_later = distinct_lines (n ∷ seen) ns in
    if includes_ℤ seen n then later else n ∷ new_later

-- `sort((a, b) => a - b)`
unfoldable pub insert_line : ℤ → List ℤ → List ℤ
insert_line a [] = a ∷ []
insert_line a (b ∷ bs) = if leb_ℤ a b then a ∷ b ∷ bs else b ∷ insert_line a bs

unfoldable pub sort_lines : List ℤ → List ℤ
sort_lines [] = []
sort_lines (a ∷ others) = insert_line a (sort_lines others)

-- The loop that deletes the lines
unfoldable pub delete_lines : List ℤ → List String → List String
delete_lines [] new_content = new_content
delete_lines (line ∷ lines) new_content = delete_lines lines (splice new_content (line -ℤ pos 1))

-- `TextLineDeleterExecutor.doExecute`, from the value of the property
unfoldable pub execute_line_deleter : List ℤ → TextFile → Result TextError TextFile
execute_line_deleter lines file = do
  check_lines (length file.content) lines
  ok (record file {
    content = delete_lines (reverse (sort_lines (distinct_lines [] lines))) file.content;
  })

-- `TextRangeSelectorExecutor.doExecute`, from the values of the two properties
unfoldable pub execute_range_selector : ℤ → ℤ → TextFile → Result TextError TextFile
execute_range_selector line_from line_to file =
    ok (record file { content = slice file.content (line_from -ℤ pos 1) line_to })

-- `splitLines`, from the result of `split`: an empty text at the end is no line.
unfoldable pub split_lines : List String → List String
split_lines [] = []
split_lines (line ∷ []) = if str_eq line "" then [] else line ∷ []
split_lines (line ∷ next ∷ lines) = line ∷ split_lines (next ∷ lines)

-- `BinaryFile`, with the bytes `B`
pub record BinaryFile (B : Type 0) : Type 0 where
  pub name : String
  pub extension : String
  pub mime_type : String
  pub content : B

-- `TextFileInterpreterExecutor.doExecute`, where `decode` is the decoder of the encoding and `split`
-- splits a text at the line breaks
unfoldable pub execute_text_file_interpreter :
    {B : Type 0} → (B → String) → (String → List String) → BinaryFile B → TextFile
execute_text_file_interpreter decode split file = record {
  name = file.name;
  extension = file.extension;
  mime_type = file.mime_type;
  content = split_lines (split (decode file.content));
}

pub data FilePickerError : Type 0 where
  file_not_found : FilePickerError

-- `FilePickerExecutor.doExecute`, from the segments of the path. All files of the file system are
-- binary files here, as the assertion demands.
unfoldable pub pick_file :
    {C : Type 0} → List String → FileSystemNode C → Result FilePickerError (FileSystemFile C)
pick_file path file_system = elim (get_file file_system path) [
  | none ↦ err file_not_found
  | some file ↦ ok file
]

pub data BackoffStrategy : Type 0 where
  exponential : BackoffStrategy
  linear : BackoffStrategy

-- `getBackoffMilliseconds`, on the milliseconds of the strategy; `thousand` is the number 1000.
unfoldable pub get_backoff_milliseconds :
    {N R : Type 0} → Runtime N R → N → BackoffStrategy → N → N → N
get_backoff_milliseconds js thousand linear backoff retry = backoff
get_backoff_milliseconds js thousand exponential initial retry =
    js.times (js.power (js.divided initial thousand) retry) thousand

module _ {F E : Type 0} (fetch : ℕ → Result E F) where
  -- The loop of `HttpExtractorExecutor.doExecute` from an attempt on, with the retries that are left;
  -- `fetch` is `fetchRawDataAsFile` at each attempt.
  unfoldable pub fetch_from : ℕ → ℕ → Result E F
  fetch_from zero attempt = fetch attempt
  fetch_from (suc retries) attempt =
      let later = fetch_from retries (suc attempt) in
      elim (fetch attempt) [ ok file ↦ ok file | err failure ↦ later | throws ↦ throws ]

  -- `doExecute`, behind the assertion on the number of retries
  unfoldable pub execute_http_extractor : ℕ → Result E F
  execute_http_extractor retries = fetch_from retries 0
