-- ===== src/Runtime/Policies.antt =====
-- internal/runtime/policy_ops.go: putting and getting the rows of artifacts, policy rules, approvals
-- and grants, under the checks of schema/store/v1/schema.sql.
pub mod Channels
use codebridge.Base.{
  ℕ, String, Bool, true, false, ◌&&◌, ◌||◌, not, Option, none, some, List, [], ◌∷◌, str_eq,
}
use codebridge.Base.Map.{lookup, insert}
use codebridge.Base.Text.{codes, has_prefix, to_lower}
use codebridge.Runtime.Entities.{Time, ms, time_from_ms, check_id, require_text}
use codebridge.Runtime.Permits.{Artifact, PolicyRule, Grant, Approval}
use codebridge.Runtime.Store.{Db, Tx, ◌>>=◌, ◌>>◌, return, check, write, found, refers, one_of}

unfoldable pub artifact_times : {S T : Type 0} → (S → T) → Artifact S → Artifact T
artifact_times f a = record {
  id = a.id;
  producer_kind = a.producer_kind;
  producer_id = a.producer_id;
  kind = a.kind;
  reference = a.reference;
  digest = a.digest;
  size_bytes = a.size_bytes;
  sensitivity = a.sensitivity;
  retention = a.retention;
  created_at = f a.created_at;
}

unfoldable pub policy_rule_times : {S T : Type 0} → (S → T) → PolicyRule S → PolicyRule T
policy_rule_times f r = record {
  id = r.id;
  effect = r.effect;
  verb = r.verb;
  selector = r.selector;
  created_at = f r.created_at;
  updated_at = f r.updated_at;
}

unfoldable pub grant_times : {S T : Type 0} → (S → T) → Grant S → Grant T
grant_times f g = record {
  id = g.id;
  verb = g.verb;
  selector = g.selector;
  scope = g.scope;
  session_id = g.session_id;
  project_id = g.project_id;
  run_id = g.run_id;
  approval_id = g.approval_id;
  channel = g.channel;
  expires_at = f g.expires_at;
  created_at = f g.created_at;
  revoked_at = f g.revoked_at;
}

unfoldable pub approval_times : {S T : Type 0} → (S → T) → Approval S → Approval T
approval_times f a = record {
  id = a.id;
  run_id = a.run_id;
  session_id = a.session_id;
  project_id = a.project_id;
  verb = a.verb;
  selector = a.selector;
  status = a.status;
  channel = a.channel;
  reason = a.reason;
  requested_at = f a.requested_at;
  decided_at = f a.decided_at;
}

-- `ON CONFLICT(id) DO UPDATE` keeps the time of the request or creation.
abbrev pub upsert_artifact : Option (Artifact ℕ) → Artifact ℕ → Artifact ℕ
upsert_artifact none a = a
upsert_artifact (some old) a = record a { created_at = old.created_at }

abbrev pub upsert_policy_rule : Option (PolicyRule ℕ) → PolicyRule ℕ → PolicyRule ℕ
upsert_policy_rule none r = r
upsert_policy_rule (some old) r = record r { created_at = old.created_at }

abbrev pub upsert_grant : Option (Grant ℕ) → Grant ℕ → Grant ℕ
upsert_grant none g = g
upsert_grant (some old) g = record g { created_at = old.created_at }

abbrev pub upsert_approval : Option (Approval ℕ) → Approval ℕ → Approval ℕ
upsert_approval none a = a
upsert_approval (some old) a = record a { requested_at = old.requested_at }

abbrev artifact_kinds : List String
artifact_kinds =
    "file" ∷ "patch" ∷ "commit" ∷ "branch_ref" ∷ "report" ∷ "test_result" ∷ "log_bundle"
    ∷ "cloud_result" ∷ "saved_screenshot" ∷ []

abbrev channels : List String
channels = "local_ui" ∷ "remote_human" ∷ []

unfoldable pub put_artifact : Artifact Time → Tx (Unit {0})
unfolding artifact_times
put_artifact a = do
  check (check_id a.id "art_")
  write
      (λ db.
        one_of a.producer_kind ("run" ∷ "computer_session" ∷ []) && one_of a.kind artifact_kinds)
      (λ db. record db {
        artifacts =
            insert a.id (upsert_artifact (lookup a.id db.artifacts) (artifact_times ms a))
              db.artifacts;
      })

unfoldable pub get_artifact : String → Tx (Artifact Time)
unfolding artifact_times
get_artifact id db =
    (found (lookup id db.artifacts) >>= λ a. return (artifact_times time_from_ms a)) db

unfoldable pub put_policy_rule : PolicyRule Time → Tx (Unit {0})
unfolding policy_rule_times
put_policy_rule r = do
  check (require_text r.id)
  write (λ db. one_of r.effect ("allow" ∷ "deny" ∷ "ask" ∷ []))
      (λ db. record db {
        policy_rules =
            insert r.id (upsert_policy_rule (lookup r.id db.policy_rules) (policy_rule_times ms r))
              db.policy_rules;
      })

unfoldable pub get_policy_rule : String → Tx (PolicyRule Time)
unfolding policy_rule_times
get_policy_rule id db =
    (found (lookup id db.policy_rules) >>= λ r. return (policy_rule_times time_from_ms r)) db

unfoldable pub put_approval : Approval Time → Tx (Unit {0})
unfolding approval_times
put_approval a = do
  check (require_text a.id)
  write
      (λ db.
        refers a.run_id db.runs
        && refers a.session_id db.sessions
        && refers a.project_id db.projects
        && one_of a.status ("pending" ∷ "approved" ∷ "denied" ∷ "expired" ∷ [])
        && one_of a.channel channels)
      (λ db. record db {
        approvals =
            insert a.id (upsert_approval (lookup a.id db.approvals) (approval_times ms a))
              db.approvals;
      })

unfoldable pub get_approval : String → Tx (Approval Time)
unfolding approval_times
get_approval id db =
    (found (lookup id db.approvals) >>= λ a. return (approval_times time_from_ms a)) db

-- `verb LIKE 'computer.%'`, where LIKE does not tell apart ASCII upper and lower case.
unfoldable pub is_computer_verb : String → Bool
is_computer_verb verb = has_prefix (to_lower (codes verb)) (codes "computer.")

-- The table checks on the scope and the channel of a grant.
abbrev pub project_rule : Grant ℕ → Bool
project_rule g = not (str_eq g.scope "project") || not (is_computer_verb g.verb)

abbrev pub session_rule : Grant ℕ → Bool
session_rule g = not (str_eq g.scope "session") || not (str_eq g.session_id "")

abbrev pub remote_rule : Grant ℕ → Bool
remote_rule g =
    not (str_eq g.channel "remote_human")
    || (one_of g.scope ("once" ∷ "session" ∷ [])
        && not (one_of g.verb ("secret.read" ∷ "cloud.upload" ∷ [])))

abbrev pub grant_words : Grant ℕ → Bool
grant_words g =
    one_of g.scope ("once" ∷ "session" ∷ "project" ∷ "always" ∷ []) && one_of g.channel channels

abbrev pub grant_refs : Grant ℕ → Db → Bool
grant_refs g db =
    refers g.session_id db.sessions
    && refers g.project_id db.projects
    && refers g.run_id db.runs
    && refers g.approval_id db.approvals

-- All the checks of the table of grants.
unfoldable pub grant_ok : Grant ℕ → Db → Bool
grant_ok g db =
    grant_words g && grant_refs g db && project_rule g && session_rule g && remote_rule g

unfoldable pub put_grant : Grant Time → Tx (Unit {0})
put_grant g = do
  check (require_text g.id)
  write (grant_ok (grant_times ms g)) (λ db. record db {
    grants = insert g.id (upsert_grant (lookup g.id db.grants) (grant_times ms g)) db.grants;
  })

unfoldable pub get_grant : String → Tx (Grant Time)
get_grant id db = (found (lookup id db.grants) >>= λ g. return (grant_times time_from_ms g)) db
