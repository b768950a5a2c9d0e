-- ===== src/Tests/Files.antt =====
-- Tests of the file system in memory.
use jayvee.Base.{ℕ, ◌≡◌, refl, true, none, some, List, [], ◌∷◌, if◌then◌else◌, String, All}
use jayvee.FileSystem.{
  FileSystemFile, FileSystemNode, file, directory, none_left, child, get_node, put_node,
}
use jayvee.FileSystem.Paths.{
  process_path, IsPlain, process_path-IsPlain, process_path_twice, get_file, put_file,
}
use jayvee.FileSystem.Lookup.{get_node-put_node, get_file-put_file}

abbrev root : FileSystemNode ℕ
root = directory "" (child (directory "a" none_left) none_left)

abbrev data_file : FileSystemFile ℕ
data_file = record { name = "b.csv"; content = 7 }

-- `/a/./x/../b.csv`
abbrev dotted : List String
dotted = "" ∷ "a" ∷ "." ∷ "x" ∷ ".." ∷ "" ∷ "b.csv" ∷ []

abbrev plain : List String
plain = "" ∷ "a" ∷ "b.csv" ∷ []

process_path-dotted : process_path dotted ≡ some plain
unfolding process_path
process_path-dotted = refl

process_path_above_root : process_path ("" ∷ ".." ∷ "a" ∷ []) ≡ none
unfolding process_path
process_path_above_root = refl

process_path-IsPlain_example : (parts : List String) × (plain ≡ "" ∷ parts) × All IsPlain parts
process_path-IsPlain_example = process_path-IsPlain dotted plain process_path-dotted

process_path_twice_example : process_path plain ≡ some plain
process_path_twice_example = process_path_twice dotted plain process_path-dotted

no_file_yet : get_node plain root ≡ none
unfolding get_node
no_file_yet = refl

put_file_succeeds : (put_file root dotted data_file).0 ≡ true
unfolding put_file process_path put_node
put_file_succeeds = refl

get_node-put_node_example :
    get_node plain ((put_node plain (file data_file) root).1)
    ≡ (put_node plain (file data_file) root).0
get_node-put_node_example = get_node-put_node plain (file data_file) root no_file_yet

get_file-put_file_example :
    get_file ((put_file root dotted data_file).1) dotted
    ≡ (if (put_file root dotted data_file).0 then some data_file else none)
get_file-put_file_example =
    get_file-put_file root dotted plain data_file process_path-dotted no_file_yet
