-- ===== src/Runtime/Permits.antt =====
-- internal/runtime/entities.go: artifacts, policy rules, approvals and grants, over timestamps like
-- the entities. Effects, verbs, scopes, channels and kinds are the texts of their rows.
use codebridge.Base.{ℕ, String}

pub record Artifact (T : Type 0) : Type 0 where
  pub id : String
  pub producer_kind : String
  pub producer_id : String
  pub kind : String
  pub reference : String
  pub digest : String
  pub size_bytes : ℕ
  pub sensitivity : String
  pub retention : String
  pub created_at : T

pub record PolicyRule (T : Type 0) : Type 0 where
  pub id : String
  pub effect : String
  pub verb : String
  pub selector : String
  pub created_at : T
  pub updated_at : T

pub record Grant (T : Type 0) : Type 0 where
  pub id : String
  pub verb : String
  pub selector : String
  pub scope : String
  pub session_id : String
  pub project_id : String
  pub run_id : String
  pub approval_id : String
  pub channel : String
  pub expires_at : T
  pub created_at : T
  pub revoked_at : T

pub record Approval (T : Type 0) : Type 0 where
  pub id : String
  pub run_id : String
  pub session_id : String
  pub project_id : String
  pub verb : String
  pub selector : String
  pub status : String
  pub channel : String
  pub reason : String
  pub requested_at : T
  pub decided_at : T
