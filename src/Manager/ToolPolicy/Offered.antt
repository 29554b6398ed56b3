-- ===== src/Manager/ToolPolicy/Offered.antt =====
-- When a built-in tool is offered to an account.
use codebridge.Base.{String, Bool, true, false, not, ◌≡◌, ◌↔◌, refl, List, [], ◌∷◌, arith, All}
use codebridge.Manager.Registry.{list_account}
use codebridge.Manager.Connections.{Device, Registry}
use codebridge.Manager.ToolPolicy.{hidden_by, disabled_loop, tool_disabled_for_account}

-- A device offers a tool: without a policy, or without a list of enabled tools, the core tools; with
-- one, what it names, or all by "*"; and never what it disables.
abbrev pub offers : String → Device → Bool
offers tool d = not (hidden_by tool d.tool_policy)

disabled_loop-offers :
    (tool : String) (ds : List Device)
    → (disabled_loop tool ds ≡ false) ↔ All (λ d. offers tool d ≡ true) ds
unfolding disabled_loop
disabled_loop-offers tool [] = (λ h. tt, λ h. refl)
disabled_loop-offers tool (d ∷ ds) = ground (arith, disabled_loop-offers tool ds)

-- A tool is hidden from an account as soon as one of its devices does not offer it; it takes all of
-- them to show it. An account without devices sees every tool.
pub tool_disabled-every_device :
    (r : Registry) (account tool : String)
    → (tool_disabled_for_account r account tool ≡ false)
      ↔ All (λ d. offers tool d ≡ true) (list_account r account)
unfolding tool_disabled_for_account
tool_disabled-every_device r account tool = disabled_loop-offers tool (list_account r account)
