-- ===== src/Agentops/PathTests.antt =====
-- The theorems on paths and on the changed lines, at small inputs.
use codebridge.Base.{true, some, List, [], ◌∷◌}
use codebridge.Base.Text.{Text, codes}
use codebridge.Agentops.Paths.{Host}
use codebridge.Agentops.Diff.{locate_changed_lines}
use codebridge.Agentops.Diff.Located.{Located, locate_changed_lines-Located}

abbrev links : Host
links = record { present = λ p. true; real = λ p. some p }

abbrev old_lines : List Text
old_lines = codes "a" ∷ codes "b" ∷ codes "c" ∷ []

abbrev new_lines : List Text
new_lines = codes "a" ∷ codes "d" ∷ codes "e" ∷ codes "c" ∷ []

locate_changed_lines-Located_example :
    Located old_lines new_lines (locate_changed_lines old_lines new_lines)
locate_changed_lines-Located_example = locate_changed_lines-Located old_lines new_lines
