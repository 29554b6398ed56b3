-- ===== src/Agentops/Sensitive/Allowed.antt =====
-- What the sensitive-file policy lets through.
use codebridge.Base.{◌≡◌, false, Option, some, ◌++◌}
use codebridge.Base.Text.{Text}
use codebridge.Agentops.Paths.{FilePath}
use codebridge.Agentops.Sensitive.{is_sensitive_path, base_of, rel_text}

-- The target lies under the root, and nothing about it is sensitive.
abbrev pub Lets : Option FilePath → FilePath → Type 0
Lets o target =
    (root_real rest : FilePath) × (o ≡ some root_real)
    × (target ≡ root_real ++ rest)
    × (is_sensitive_path (base_of root_real) ≡ false)
    × (is_sensitive_path (rel_text rest) ≡ false)
