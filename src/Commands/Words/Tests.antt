-- ===== src/Commands/Words/Tests.antt =====
-- Splitting of concrete texts, and the theorem at some words.
use cli_server_python.Prelude.{◌≡◌, refl, [], ◌∷◌, is_space}
use cli_server_python.Prelude.Chars.{text_length}
use cli_server_python.Commands.Words.{split_from, quoted, split_shell_words, join_shell_words}
use cli_server_python.Commands.Words.Quoting.{quote_words, split_shell_words-quote_words}

words : Unit {0}
unfolding split_shell_words join_shell_words split_from quoted text_length is_space
words = tt

split_tests :
    (split_shell_words "a  'b c' d\\ e\"f\"" ≡ "a" ∷ "b c" ∷ "d ef" ∷ [])
    × (split_shell_words "it's \\" ≡ "it's" ∷ "\\" ∷ [])
    × (split_shell_words "\"\" x" ≡ "" ∷ "x" ∷ [])
    × (join_shell_words "\"a\" 'b'" ≡ "a b")
unfolding words
split_tests = (refl, refl, refl, refl)

split_shell_words-quote_words_example :
    split_shell_words (quote_words ("say \"hi\"" ∷ "" ∷ "a\\b" ∷ []))
    ≡ "say \"hi\"" ∷ "" ∷ "a\\b" ∷ []
split_shell_words-quote_words_example =
    split_shell_words-quote_words ("say \"hi\"" ∷ "" ∷ "a\\b" ∷ [])
