-- ===== src/Hostipc/Methods.antt =====
-- internal/hostipc/methods.go: the method table and who may call what.
use codebridge.Base.{
  Bool, true, false, String, Option, none, some, List, [], ◌∷◌, str_eq, any, if◌then◌else◌,
}

-- A role is the text that the peer sends; `other` is any text that is not one of the three.
pub data Role : Type 0 where
  app diagnostics harness : Role
  other : String → Role

abbrev pub role_eq : Role → Role → Bool
role_eq app app = true
role_eq diagnostics diagnostics = true
role_eq harness harness = true
role_eq (other a) (other b) = str_eq a b
role_eq _ _ = false

abbrev pub known : Role → Bool
known (other name) = false
known _ = true

abbrev pub caller_class : Role → String
caller_class app = "local_ui"
caller_class _ = "local_mcp"

pub data Direction : Type 0 where
  app_to_daemon daemon_to_app daemon_to_app_notification : Direction

abbrev pub is_app_to_daemon : Direction → Bool
is_app_to_daemon app_to_daemon = true
is_app_to_daemon _ = false

pub record MethodSpec : Type 0 where
  pub name : String
  pub direction : Direction
  pub roles : List Role
  pub implemented : Bool

abbrev row : String → Direction → List Role → Bool → MethodSpec
row name direction roles implemented = record {
  name = name;
  direction = direction;
  roles = roles;
  implemented = implemented;
}

abbrev every_role : List Role
every_role = app ∷ diagnostics ∷ harness ∷ []

abbrev app_only : List Role
app_only = app ∷ []

abbrev pub method_table : List MethodSpec
method_table =
    row "host.hello" app_to_daemon every_role true
    ∷ row "host.health" app_to_daemon every_role true
    ∷ row "host.native_host_smoke" app_to_daemon every_role true
    ∷ row "host.phase0_probe" app_to_daemon (app ∷ diagnostics ∷ []) false
    ∷ row "host.prepare_restart" app_to_daemon app_only false
    ∷ row "runtime.health" app_to_daemon app_only false
    ∷ row "runtime.events" app_to_daemon app_only false
    ∷ row "runtime.command" app_to_daemon app_only false
    ∷ row "approval.decision" app_to_daemon app_only false
    ∷ row "computer.describe" daemon_to_app app_only false
    ∷ row "computer.targets" daemon_to_app app_only false
    ∷ row "computer.open_session" daemon_to_app app_only false
    ∷ row "computer.observe" daemon_to_app app_only false
    ∷ row "computer.act" daemon_to_app app_only false
    ∷ row "computer.control" daemon_to_app app_only false
    ∷ row "computer.close_session" daemon_to_app app_only false
    ∷ row "approval.present" daemon_to_app app_only false
    ∷ row "approval.cancel" daemon_to_app app_only false
    ∷ row "notify.post" daemon_to_app_notification app_only true
    ∷ []

abbrev pub find_method : String → List MethodSpec → Option MethodSpec
find_method name [] = none
find_method name (spec ∷ specs) =
    if str_eq spec.name name then some spec else find_method name specs

unfoldable pub lookup_method : String → Option MethodSpec
lookup_method name = find_method name method_table

abbrev pub role_allowed : MethodSpec → Role → Bool
role_allowed spec role = any (λ r. role_eq r role) spec.roles

pub data Error : Type 0 where
  invalid_request parse invalid_params unknown_role protocol_major_mismatch
        protocol_minor_unsupported :
      Error
  not_initialized unsupported role_forbidden handler_error : Error
  unauthorized : String → Error

abbrev pub role_error : MethodSpec → Role → Option Error
role_error spec role = if role_allowed spec role then none else some role_forbidden

abbrev pub spec_error : Option MethodSpec → Role → Option Error
spec_error none role = some unsupported
spec_error (some spec) role =
    if is_app_to_daemon spec.direction then role_error spec role else some unsupported

-- The error, if there is one.
unfoldable pub authorize : String → Role → Option Error
unfolding lookup_method
authorize method role = spec_error (lookup_method method) role
