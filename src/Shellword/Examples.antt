-- ===== src/Shellword/Examples.antt =====
-- A hook's argv with a blank, a quote and an empty word, and a command with an open quote.
use rdda.Common.{arith, List, [], ◌∷◌, ◌++◌, ◌≡◌, refl, Str, codes}
use rdda.Common.Results.{ok, err}
use rdda.Shellword.{single, split, scan, step, unterminated}
use rdda.Shellword.Quoting.{command_line, split-command_line, split_open_quote}

abbrev hook : List Str
hook = codes "/opt/my tools/reload.sh" ∷ codes "it's" ∷ [] ∷ []

split-command_line_example : split (command_line hook) ≡ ok hook
split-command_line_example = split-command_line hook

split_open_quote_example : split (codes "a b " ++ single ∷ codes "x") ≡ err (unterminated single)
unfolding scan step
split_open_quote_example = split_open_quote (codes "a b ") (codes "x") refl refl (omega arith, tt)
