-- ===== src/Commands/Output.antt =====
-- The outputs of a command (models/cli_server_output.py), their limits (services/cli_output_limits.py)
-- and the pages that a command is asked for (cli_paging.py of the abstractions). Output models only:
-- what stream processors emit in its serialised form has the same rule.
pub mod Laws
mod Tests
use cli_server_python.Prelude.Int.{ℤ, pos, negsuc}
use cli_server_python.Prelude.{
  ℕ, zero, suc, ◌==◌, String, Bool, true, false, Option, none, some, List, [], ◌∷◌, map, leb, min,
  length, take, if◌then◌else◌,
}

pub record Page : Type 0 where
  pub skip : ℕ
  pub take : ℕ
  pub total : Option ℕ
  pub has_more : Bool
  pub truncated : Bool

-- Text with its style, a table, and the three other kinds of output.
pub data Output : Type 0 where
  text : String → String → Output
  table : List String → List (List String) → Option Page → Output
  items : List String → Output
  json : String → Output
  entries : List (String × String) → Output

pub record Response : Type 0 where
  pub exit_code : ℕ
  pub outputs : List Output

unfoldable pub truncated_page : ℕ → ℕ → Page
truncated_page max_rows total = record {
  skip = 0;
  take = max_rows;
  total = some total;
  has_more = true;
  truncated = true;
}

unfoldable pub apply_output_limits : ℕ → Output → Output
unfolding truncated_page
apply_output_limits max_rows (table headers rows none) =
    if max_rows == 0
    then table headers rows none
    else if leb (length rows) max_rows
    then table headers rows none
    else table headers (take max_rows rows) (some (truncated_page max_rows (length rows)))
apply_output_limits max_rows output = output

unfoldable pub apply_response_limits : ℕ → Response → Response
unfolding apply_output_limits
apply_response_limits max_rows r =
    if max_rows == 0 then r else record r { outputs = map (apply_output_limits max_rows) r.outputs }

abbrev pub default_take : ℕ
default_take = 50

abbrev pub max_take : ℕ
max_take = 500

pub record PageRequest : Type 0 where
  pub skip : ℕ
  pub take : ℕ

-- `max(skip, 0)`
abbrev pub skip_of : Option ℤ → ℕ
skip_of none = 0
skip_of (some (pos n)) = n
skip_of (some (negsuc n)) = 0

-- `take if take is not None and take > 0 else default_take`
abbrev pub take_of : ℕ → Option ℤ → ℕ
take_of default none = default
take_of default (some (pos zero)) = default
take_of default (some (pos (suc n))) = suc n
take_of default (some (negsuc n)) = default

-- `CliPaging.from_command`, of the integers that `_read_int` finds.
unfoldable pub from_command : ℕ → Option ℤ → Option ℤ → PageRequest
from_command default skip take = record {
  skip = skip_of skip;
  take = min (take_of default take) max_take;
}
