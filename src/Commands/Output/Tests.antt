-- ===== src/Commands/Output/Tests.antt =====
-- Limits of a concrete table and pages of concrete numbers.
use cli_server_python.Prelude.Int.{pos, negsuc}
use cli_server_python.Prelude.{◌≡◌, refl, none, some, [], ◌∷◌}
use cli_server_python.Commands.Output.{table, truncated_page, apply_output_limits, from_command}

limit_tests :
    (apply_output_limits 1 (table ("a" ∷ []) (("1" ∷ []) ∷ ("2" ∷ []) ∷ []) none)
      ≡ table ("a" ∷ []) (("1" ∷ []) ∷ []) (some (truncated_page 1 2)))
    × (apply_output_limits 2 (table ("a" ∷ []) (("1" ∷ []) ∷ ("2" ∷ []) ∷ []) none)
        ≡ table ("a" ∷ []) (("1" ∷ []) ∷ ("2" ∷ []) ∷ []) none)
unfolding apply_output_limits
limit_tests = (refl, refl)

page_tests :
    (from_command 50 (some (negsuc 2)) (some (pos 900)) ≡ record { skip = 0; take = 500 })
    × (from_command 50 none (some (pos 0)) ≡ record { skip = 0; take = 50 })
unfolding from_command
page_tests = (refl, refl)
