-- ===== src/Files/Tests.antt =====
-- Paths and files of a small tree, and the theorems there.
use cli_server_python.Prelude.{
  ◌≡◌, refl, strip, split_on, false, ◌&&◌, some, if◌then◌else◌, [], ◌∷◌,
}
use cli_server_python.Prelude.Action.{ok, err}
use cli_server_python.Files.Tree.{
  is_a_directory, not_a_directory, not_found, Times, Entries, nothing, lookup, insert, delete,
  children, has_children, is_directory, resolve, with_parent,
}
use cli_server_python.Files.Tree.Laws.{same_parts}
use cli_server_python.Files.Provider.{
  parent_and_name, write_child, make_child, keep_children, put_child, remove_child, drop_child,
  find_node, read_bytes, stat, stat_of, path_exists, write_bytes, mkdir, remove, copy_node,
  drop_source, move,
}
use cli_server_python.Files.Provider.Laws.{is_ok, given_bytes, ReadsAs, read_bytes-write_bytes}
use cli_server_python.Files.Path.{normalize_parts, normalize_path, path_parts}
use cli_server_python.Files.Path.Laws.{path_parts-normalize_path}

normalize_tests :
    (normalize_path "//a/./b//../c/" ≡ "a/c")
    × (normalize_path "/../.." ≡ "")
    × (normalize_path " . " ≡ "")
unfolding normalize_path strip split_on
normalize_tests = (refl, refl, refl)

path_parts-normalize_path_example :
    path_parts (normalize_path "/a/../b/./c/") ≡ normalize_parts "/a/../b/./c/"
path_parts-normalize_path_example = path_parts-normalize_path "/a/../b/./c/"

abbrev root : Times
root = record { created_at = 0; modified_at = 0 }

-- `docs/a.txt` and `docs/b.txt`.
abbrev stored : Entries
stored =
    (write_bytes root 2 "docs/b.txt" (98 ∷ [])
      (write_bytes root 1 "/docs/a.txt" (97 ∷ 97 ∷ []) nothing).1).1

files : Unit {0}
unfolding write_bytes read_bytes with_parent write_child lookup insert resolve find_node
    parent_and_name normalize_parts strip split_on stat remove remove_child delete children
    has_children is_directory move copy_node put_child keep_children drop_source drop_child
    path_exists mkdir make_child stat_of
files = tt

read_tests :
    ((read_bytes root "docs/./a.txt" stored).0 ≡ ok (97 ∷ 97 ∷ []))
    × ((read_bytes root "docs" stored).0 ≡ err is_a_directory)
    × ((write_bytes root 3 "docs" (1 ∷ []) stored).0 ≡ err is_a_directory)
    × ((write_bytes root 3 "docs/a.txt/c" (1 ∷ []) stored).0 ≡ err not_a_directory)
    × ((remove root "docs" false stored).0 ≡ err not_a_directory)
    × ((mkdir root 3 "x/y" false stored).0 ≡ err not_found)
unfolding files
read_tests = (refl, refl, refl, refl, refl, refl)

-- A move of a file onto itself deletes it.
move_tests :
    ((move root 5 "docs/a.txt" "docs/a.txt" stored).0 ≡ ok tt)
    × (path_exists root "docs/a.txt" (move root 5 "docs/a.txt" "docs/a.txt" stored).1 ≡ false)
unfolding files
move_tests = (refl, refl)

read_bytes-write_bytes_example :
    (let (result, es) = write_bytes root 3 "docs/a.txt" (99 ∷ []) stored in
      (given_bytes (read_bytes root "/docs//a.txt" es).0 ≡ (
        if is_ok result
          && same_parts (normalize_parts "/docs//a.txt") (normalize_parts "docs/a.txt")
        then some (99 ∷ [])
        else given_bytes (read_bytes root "/docs//a.txt" stored).0))
      × ReadsAs (stat root "/docs//a.txt" es).0 (read_bytes root "/docs//a.txt" es).0)
read_bytes-write_bytes_example =
    read_bytes-write_bytes root 3 "docs/a.txt" "/docs//a.txt" (99 ∷ []) stored
