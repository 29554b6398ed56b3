-- ===== src/Runtime/Rows.antt =====
-- internal/runtime/entities_ops.go and runs_ops.go: the rows of the entities, as the columns that a
-- statement writes and a scan reads, and what an upsert keeps of the row that is there.
use codebridge.Base.{ℕ, Option, none, some}
use codebridge.Runtime.Entities.{Project, Session, Run, ProviderSession, ComputerSession}

-- Rows and structs differ by their timestamps.
unfoldable pub project_times : {S T : Type 0} → (S → T) → Project S → Project T
project_times f p = record {
  id = p.id;
  name = p.name;
  roots = p.roots;
  sensitive_paths = p.sensitive_paths;
  created_at = f p.created_at;
  updated_at = f p.updated_at;
}

unfoldable pub session_times : {S T : Type 0} → (S → T) → Session S → Session T
session_times f s = record {
  id = s.id;
  project_id = s.project_id;
  title = s.title;
  caller_class = s.caller_class;
  external_conversation = s.external_conversation;
  status = s.status;
  created_at = f s.created_at;
  updated_at = f s.updated_at;
}

unfoldable pub provider_session_times :
    {S T : Type 0} → (S → T) → ProviderSession S → ProviderSession T
provider_session_times f p = record {
  id = p.id;
  provider = p.provider;
  native_id = p.native_id;
  locator = p.locator;
  project_id = p.project_id;
  can_resume = p.can_resume;
  can_history = p.can_history;
  created_at = f p.created_at;
  updated_at = f p.updated_at;
}

unfoldable pub run_times : {S T : Type 0} → (S → T) → Run S → Run T
run_times f r = record {
  id = r.id;
  session_id = r.session_id;
  project_id = r.project_id;
  kind = r.kind;
  provider = r.provider;
  model = r.model;
  autonomy = r.autonomy;
  role = r.role;
  parent_run_id = r.parent_run_id;
  continues_run_id = r.continues_run_id;
  provider_session_id = r.provider_session_id;
  status = r.status;
  process_pid = r.process_pid;
  process_started_at = f r.process_started_at;
  process_group_id = r.process_group_id;
  output_ref = r.output_ref;
  error_category = r.error_category;
  last_seq = r.last_seq;
  created_at = f r.created_at;
  started_at = f r.started_at;
  finished_at = f r.finished_at;
}

unfoldable pub computer_session_times :
    {S T : Type 0} → (S → T) → ComputerSession S → ComputerSession T
computer_session_times f c = record {
  id = c.id;
  session_id = c.session_id;
  run_id = c.run_id;
  target = c.target;
  state = c.state;
  controller = c.controller;
  controller_epoch = c.controller_epoch;
  arbiter_instance = c.arbiter_instance;
  lease_holder = c.lease_holder;
  lease_expires_at = f c.lease_expires_at;
  can_observe = c.can_observe;
  can_input = c.can_input;
  can_preview = c.can_preview;
  granted_verbs = c.granted_verbs;
  app_selectors = c.app_selectors;
  last_frame_id = c.last_frame_id;
  geometry_generation = c.geometry_generation;
  created_at = f c.created_at;
  updated_at = f c.updated_at;
}

-- `ON CONFLICT(id) DO UPDATE` without created_at.
abbrev pub upsert_project : Option (Project ℕ) → Project ℕ → Project ℕ
upsert_project none p = p
upsert_project (some old) p = record p { created_at = old.created_at }

abbrev pub upsert_session : Option (Session ℕ) → Session ℕ → Session ℕ
upsert_session none s = s
upsert_session (some old) s = record s { created_at = old.created_at }

abbrev pub upsert_provider_session :
    Option (ProviderSession ℕ) → ProviderSession ℕ → ProviderSession ℕ
upsert_provider_session none p = p
upsert_provider_session (some old) p = record p { created_at = old.created_at }

-- For a run, without last_seq and created_at.
abbrev pub upsert_run : Option (Run ℕ) → Run ℕ → Run ℕ
upsert_run none r = r
upsert_run (some old) r = record r { last_seq = old.last_seq; created_at = old.created_at }

abbrev pub upsert_computer_session :
    Option (ComputerSession ℕ) → ComputerSession ℕ → ComputerSession ℕ
upsert_computer_session none c = c
upsert_computer_session (some old) c = record c { created_at = old.created_at }
