-- ===== src/Files/Path.antt =====
-- `_normalize_path` of providers/in_memory_provider.py, and the split of its result.
pub mod Laws
use Prim.Native.String
use cli_server_python.Prelude.{
  ℕ, String, Bool, ◌||◌, ◌==◌, List, [], ◌∷◌, ◌++◌, str_eq, strip, strip_by, split_on, is_empty,
  if◌then◌else◌,
}

-- `"/".join(parts)`
unfoldable pub join_slash : List String → String
join_slash [] = ""
join_slash (w ∷ []) = w
join_slash (w ∷ v ∷ ws) = String.◌++◌ w (String.◌++◌ "/" (join_slash (v ∷ ws)))

-- `parts.pop()`, if there are parts.
unfoldable pub pop_last : List String → List String
pop_last [] = []
pop_last (x ∷ []) = []
pop_last (x ∷ y ∷ xs) = x ∷ pop_last (y ∷ xs)

-- One round of the loop.
unfoldable pub add_segment : List String → String → List String
unfolding pop_last
add_segment parts segment =
    if str_eq segment "" || str_eq segment "."
    then parts
    else if str_eq segment ".."
    then pop_last parts
    else parts ++ segment ∷ []

unfoldable pub normalize_from : List String → List String → List String
unfolding add_segment
normalize_from parts [] = parts
normalize_from parts (segment ∷ segments) = normalize_from (add_segment parts segment) segments

-- The list `parts` of `_normalize_path`, empty for the root.
unfoldable pub normalize_parts : String → List String
unfolding normalize_from
normalize_parts path =
    let stripped = strip (strip_by (λ c. c == b'/') path) in
    if str_eq stripped "" || str_eq stripped "."
    then []
    else normalize_from [] (split_on b'/' stripped)

unfoldable pub normalize_path : String → String
unfolding normalize_parts join_slash
normalize_path path = join_slash (normalize_parts path)

-- `norm.split("/")`, for a `norm` that is not empty; the root has no parts.
unfoldable pub path_parts : String → List String
path_parts norm = if is_empty norm then [] else split_on b'/' norm
