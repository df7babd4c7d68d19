-- ===== src/Files/Tree/Laws.antt =====
-- What a change below a directory leaves in the files of a tree.
use cli_server_python.Prelude.{
  ℕ, String, ◌≡◌, refl, Bool, true, false, ◌&&◌, eq_refl, Option, none, some, List, [], ◌∷◌, arith,
  str_eq, eq_iff, if◌then◌else◌,
}
use cli_server_python.Files.Tree.{
  Node, Entries, file, directory, nothing, entry, lookup, insert, delete,
}

-- The bytes of the file at some parts, if there is one.
abbrev pub bytes_of : Option Node → Option (List ℕ)
bytes_of none = none
bytes_of (some (file times bytes)) = some bytes
bytes_of (some (directory times es)) = none

abbrev pub bytes_in : List String → Entries → Option (List ℕ)
bytes_in [] es = none
bytes_in (part ∷ []) es = bytes_of (lookup part es)
bytes_in (part ∷ next ∷ parts) es = elim (lookup part es) [
  | none ↦ none
  | some child ↦ elim child [
    | file times bytes ↦ none
    | directory times sub ↦ bytes_in (next ∷ parts) sub
  ]
]

pub lookup-insert :
    (k j : String) (node : Node) (es : Entries)
    → lookup j (insert k node es) ≡ (if str_eq k j then some node else lookup j es)
unfolding lookup insert
lookup-insert k j node nothing = ground arith
lookup-insert k j node (entry i old rest) =
    ground (arith, eq_iff i k, eq_iff i j, eq_iff k j, lookup-insert k j node rest)

pub lookup-delete :
    (k j : String) (es : Entries)
    → lookup j (delete k es) ≡ (if str_eq k j then none else lookup j es)
unfolding lookup delete
lookup-delete k j nothing = ground arith
lookup-delete k j (entry i old rest) =
    ground (arith, eq_iff i k, eq_iff i j, eq_iff k j, lookup-delete k j rest)

abbrev pub same_parts : List String → List String → Bool
same_parts [] [] = true
same_parts [] (y ∷ ys) = false
same_parts (x ∷ xs) [] = false
same_parts (x ∷ xs) (y ∷ ys) = str_eq x y && same_parts xs ys

pub bytes_in-nothing : (parts : List String) → bytes_in parts nothing ≡ none
unfolding lookup
bytes_in-nothing [] = refl
bytes_in-nothing (p ∷ []) = refl
bytes_in-nothing (p ∷ q ∷ ps) = refl

-- The bytes below one part, after the part's node was replaced.
pub bytes_in-insert :
    (k j : String) (parts : List String) (node : Node) (es : Entries)
    → bytes_in (j ∷ parts) (insert k node es) ≡ (
        if str_eq k j then bytes_in (j ∷ parts) (entry j node nothing) else bytes_in (j ∷ parts) es)
unfolding lookup
bytes_in-insert k j [] node es = ground (arith, lookup-insert k j node es, eq_refl j)
bytes_in-insert k j (q ∷ qs) node es = ground (arith, lookup-insert k j node es, eq_refl j)
