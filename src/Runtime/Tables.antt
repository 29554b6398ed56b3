-- ===== src/Runtime/Tables.antt =====
-- internal/runtime/entities_ops.go and runs_ops.go: putting and getting the rows of projects,
-- sessions, provider sessions, runs and computer sessions. An upsert keeps what its UPDATE clause
-- leaves out; the schema's references, CHECK lists and unique indexes decide whether it is written.
pub mod Written
pub mod RoundTrip
pub mod Active
use codebridge.Base.{
  ℕ, String, Bool, true, false, ◌&&◌, ◌||◌, not, Option, none, some, List, [], ◌∷◌, str_eq,
  if◌then◌else◌,
}
use codebridge.Base.Map.{Dict, lookup, insert}
use codebridge.Runtime.Entities.{
  Time, ms, time_from_ms, Project, Session, Run, ProviderSession, ComputerSession, RunStatus,
  queued, running, is_valid, ControllerKind, unknown_kind, ControllerChannel, unknown_channel,
  check_id,
}
use codebridge.Runtime.Store.{
  Db, Tx, ◌>>=◌, ◌>>◌, return, check, write, found, refers, has_row, one_of,
}
use codebridge.Runtime.Rows.{
  project_times, session_times, provider_session_times, run_times, computer_session_times,
  upsert_project, upsert_session, upsert_provider_session, upsert_run, upsert_computer_session,
}

unfoldable pub put_project : Project Time → Tx (Unit {0})
unfolding project_times
put_project p = do
  check (check_id p.id "prj_")
  write (λ db. true)
      (λ db. record db {
        projects =
            insert p.id (upsert_project (lookup p.id db.projects) (project_times ms p)) db.projects;
      })

unfoldable pub get_project : String → Tx (Project Time)
unfolding project_times
get_project id db =
    (found (lookup id db.projects) >>= λ p. return (project_times time_from_ms p)) db

abbrev pub session_ok : Session ℕ → Db → Bool
session_ok s db =
    refers s.project_id db.projects
    && one_of s.caller_class ("remote_ai" ∷ "local_ui" ∷ "local_mcp" ∷ "agent_internal" ∷ [])
    && one_of s.status ("open" ∷ "archived" ∷ [])

unfoldable pub put_session : Session Time → Tx (Unit {0})
unfolding session_times
put_session s = do
  check (check_id s.id "ses_")
  write (session_ok (session_times ms s)) (λ db. record db {
    sessions =
        insert s.id (upsert_session (lookup s.id db.sessions) (session_times ms s)) db.sessions;
  })

unfoldable pub get_session : String → Tx (Session Time)
unfolding session_times
get_session id db =
    (found (lookup id db.sessions) >>= λ s. return (session_times time_from_ms s)) db

-- The unique index on (provider, native_id) where native_id is not empty.
unfoldable pub native_clash : ProviderSession ℕ → Dict (ProviderSession ℕ) → Bool
native_clash p [] = false
native_clash p ((k, q) ∷ m) =
    (not (str_eq k p.id)
      && not (str_eq p.native_id "")
      && str_eq q.provider p.provider
      && str_eq q.native_id p.native_id)
    || native_clash p m

unfoldable pub put_provider_session : ProviderSession Time → Tx (Unit {0})
unfolding provider_session_times native_clash
put_provider_session p = do
  check (check_id p.id "psn_")
  write
      (λ db.
        refers p.project_id db.projects
        && not (native_clash (provider_session_times ms p) db.provider_sessions))
      (λ db. record db {
        provider_sessions =
            insert p.id
              (upsert_provider_session (lookup p.id db.provider_sessions)
                (provider_session_times ms p))
              db.provider_sessions;
      })

unfoldable pub get_provider_session : String → Tx (ProviderSession Time)
unfolding provider_session_times
get_provider_session id db =
    (found (lookup id db.provider_sessions) >>= λ p. return (provider_session_times time_from_ms p))
      db

unfoldable pub is_active : RunStatus → Bool
is_active queued = true
is_active running = true
is_active _ = false

-- The unique index on provider_session_id where it is not NULL and the run is active.
abbrev pub holds_session : Run ℕ → Bool
holds_session r = not (str_eq r.provider_session_id "") && is_active r.status

unfoldable pub active_clash : Run ℕ → Dict (Run ℕ) → Bool
active_clash r [] = false
active_clash r ((k, q) ∷ m) =
    (not (str_eq k r.id)
      && holds_session r
      && holds_session q
      && str_eq q.provider_session_id r.provider_session_id)
    || active_clash r m

-- A run may refer to itself: its own row is there once it is written.
abbrev pub refers_run : String → Run ℕ → Dict (Run ℕ) → Bool
refers_run k r m = str_eq k r.id || refers k m

unfoldable pub run_ok : Run ℕ → Db → Bool
unfolding active_clash
run_ok r db =
    has_row r.session_id db.sessions
    && refers r.project_id db.projects
    && refers_run r.parent_run_id r db.runs
    && refers_run r.continues_run_id r db.runs
    && refers r.provider_session_id db.provider_sessions
    && one_of r.kind ("agent" ∷ "cloud" ∷ [])
    && is_valid r.status
    && not (active_clash r db.runs)

unfoldable pub put_run : Run Time → Tx (Unit {0})
put_run r = do
  check (check_id r.id "run_")
  write (run_ok (run_times ms r)) (λ db. record db {
    runs = insert r.id (upsert_run (lookup r.id db.runs) (run_times ms r)) db.runs;
  })

unfoldable pub get_run : String → Tx (Run Time)
get_run id db = (found (lookup id db.runs) >>= λ r. return (run_times time_from_ms r)) db

unfoldable pub known_kind : ControllerKind → Bool
known_kind (unknown_kind s) = false
known_kind _ = true

unfoldable pub known_channel : ControllerChannel → Bool
known_channel (unknown_channel s) = false
known_channel _ = true

unfoldable pub computer_session_ok : ComputerSession ℕ → Db → Bool
unfolding known_kind known_channel
computer_session_ok c db =
    has_row c.session_id db.sessions
    && refers c.run_id db.runs
    && one_of c.state ("starting" ∷ "active" ∷ "suspended" ∷ "closed" ∷ "failed" ∷ [])
    && known_kind c.controller.kind
    && known_channel c.controller.channel

unfoldable pub put_computer_session : ComputerSession Time → Tx (Unit {0})
put_computer_session c = do
  check (check_id c.id "cmp_")
  write (computer_session_ok (computer_session_times ms c)) (λ db. record db {
    computer_sessions =
        insert c.id
          (upsert_computer_session (lookup c.id db.computer_sessions) (computer_session_times ms c))
          db.computer_sessions;
  })

unfoldable pub get_computer_session : String → Tx (ComputerSession Time)
get_computer_session id db =
    (found (lookup id db.computer_sessions) >>= λ c. return (computer_session_times time_from_ms c))
      db
