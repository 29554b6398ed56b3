-- ===== src/Agentops/Permissions.antt =====
-- internal/agentops/permissions.go: the permission rules, the parked requests and
-- their grants. The store's mutex makes each operation one step;
-- `now` is `time.Now()`, and the random id of a new request is an argument.
pub mod Decision
pub mod Grants
mod Tests
use codebridge.Base.{
  ℕ, ◌+◌, ◌*◌, String, Bool, true, false, ◌&&◌, ◌||◌, not, Option, none, some, List, [], ◌∷◌, ◌++◌,
  ltb, str_eq, if◌then◌else◌,
}
use codebridge.Base.Map.{Dict, lookup, insert, erase, retain}
use codebridge.Base.Text.{
  Text, codes, is_empty, text_eq, trim_space, has_prefix, trim_suffix, fields, to_lower,
}

pub record PermissionRule : Type 0 where
  pub effect : String
  pub tool : String
  pub pattern : Text
  pub reason : Text

pub record PermissionRequest : Type 0 where
  pub id : String
  pub tool : String
  pub command : Text
  pub workspace : String
  pub created_at : ℕ
  pub expires_at : ℕ

-- Times are nanoseconds.
abbrev pub permission_request_ttl : ℕ
permission_request_ttl = 5 * 60 * 1000000000

pub record PermissionStore : Type 0 where
  pub rules : List PermissionRule
  pub pending : Dict PermissionRequest
  pub granted : Dict Bool

pub data Effect : Type 0 where
  ask allow deny : Effect

unfoldable pub set_permissions : PermissionStore → List PermissionRule → PermissionStore
set_permissions st rules = record st { rules = rules }

unfoldable pub rule_matches : Text → Text → Text → Bool
rule_matches pattern command first_word =
    let p = trim_space pattern in
    let prefix = trim_suffix p b'*' in
    if is_empty p || text_eq p (codes "*")
    then true
    else (if text_eq prefix p then text_eq first_word p else has_prefix command prefix)

-- A rule for another tool is passed over.
unfoldable pub other_tool : PermissionRule → String → Bool
other_tool rule tool = not (str_eq rule.tool "") && not (str_eq rule.tool tool)

abbrev pub applies : PermissionRule → String → Text → Text → Bool
applies rule tool command first =
    not (other_tool rule tool) && rule_matches rule.pattern command first

-- Any effect but "deny" allows.
unfoldable pub rule_denies : PermissionRule → Bool
rule_denies rule = str_eq rule.effect "deny"

abbrev first_of : List Text → Text
first_of [] = []
first_of (w ∷ ws) = w

unfoldable pub first_word : Text → Text
first_word command = first_of (fields command)

-- The loop of `permissionDecision`, with the effect and the pattern so far.
unfoldable pub decision_loop :
    String → Text → Text → List PermissionRule → Effect → Text → Effect × Text
decision_loop tool command first [] effect pattern = (effect, pattern)
decision_loop tool command first (rule ∷ rules) effect pattern =
    let same = decision_loop tool command first rules effect pattern in
    let allowed = decision_loop tool command first rules allow rule.pattern in
    if other_tool rule tool
    then same
    else (if rule_matches rule.pattern command first
        then (if rule_denies rule
            then (deny, rule.pattern)
            else elim effect [ deny ↦ same | ask ↦ allowed | allow ↦ allowed ])
        else same)

unfoldable pub permission_decision : PermissionStore → String → Text → Effect × Text
unfolding decision_loop other_tool rule_matches rule_denies first_word
permission_decision st tool command =
    decision_loop tool command (first_word command) st.rules ask []

-- `req.ExpiresAt.Before(now)`
abbrev pub expired : ℕ → PermissionRequest → Bool
expired now req = ltb req.expires_at now

unfoldable pub park_request :
    PermissionStore → String → ℕ → String → Text → String → PermissionStore
park_request st id now tool command workspace =
    let req : PermissionRequest = record {
      id = id;
      tool = tool;
      command = command;
      workspace = workspace;
      created_at = now;
      expires_at = now + permission_request_ttl;
    } in
    record st { pending = retain (λ r. not (expired now r)) (insert id req st.pending) }

pub data Error : Type 0 where
  not_found request_expired request_id_required bad_decision : Error

pub data Result {ℓ} (A : Type ℓ) : Type ℓ where
  ok : A → Result A
  err : Error → Result A

abbrev looked_up :
    PermissionStore
    → String
    → ℕ
    → Option PermissionRequest
    → PermissionStore × Result PermissionRequest
looked_up st id now none = (st, err not_found)
looked_up st id now (some req) =
    if expired now req
    then (record st { pending = erase id st.pending }, err request_expired)
    else (st, ok req)

unfoldable pub lookup_request :
    PermissionStore → String → ℕ → PermissionStore × Result PermissionRequest
lookup_request st id now = looked_up st id now (lookup id st.pending)

abbrev rule_pattern : List Text → Text
rule_pattern [] = codes "*"
rule_pattern (w ∷ ws) = w

unfoldable pub permission_rule_for_request : PermissionRequest → PermissionRule
permission_rule_for_request req = record {
  effect = "allow";
  tool = req.tool;
  pattern = rule_pattern (fields req.command);
  reason = [];
}

pub data Granted : Type 0 where
  once : Granted
  always : PermissionRule → Granted
  denied : Granted

-- What `permissionGrant` does to a request that it has found; `always` also hands the rules to
-- `onRulePersisted`, where they are the rules of the store returned.
unfoldable pub grant_found :
    PermissionStore → String → Text → PermissionRequest → PermissionStore × Result Granted
unfolding permission_rule_for_request
grant_found st id word req =
    if text_eq word (codes "once")
    then (record st { granted = insert id true st.granted }, ok once)
    else (if text_eq word (codes "always")
        then (
          record st {
            rules = st.rules ++ (permission_rule_for_request req ∷ []);
            pending = erase id st.pending;
          },
          ok (always (permission_rule_for_request req)),
        )
        else (if text_eq word (codes "deny")
            then (
              record st { pending = erase id st.pending; granted = erase id st.granted },
              ok denied,
            )
            else (st, err bad_decision)))

abbrev granted_after :
    String → Text → PermissionStore × Result PermissionRequest → PermissionStore × Result Granted
granted_after id word (st, err e) = (st, err e)
granted_after id word (st, ok req) = grant_found st id word req

unfoldable pub permission_grant :
    PermissionStore → String → Text → ℕ → PermissionStore × Result Granted
unfolding grant_found lookup_request
permission_grant st id decision now =
    if str_eq id ""
    then (st, err request_id_required)
    else granted_after id (trim_space (to_lower decision)) (lookup_request st id now)

unfoldable pub consume_grant : PermissionStore → String → PermissionStore × Bool
consume_grant st id = elim (lookup id st.granted) [
  | some true ↦ (record st { granted = erase id st.granted }, true)
  | _ ↦ (st, false)
]
