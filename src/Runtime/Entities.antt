-- ===== src/Runtime/Entities.antt =====
-- internal/runtime/entities.go: the entities, their status types, journal streams and timestamps.
-- A record over a type T of timestamps serves twice: over `Time` it is the Go struct, and over ℕ
-- (Unix milliseconds) the row of its table. A typed string that no code here distinguishes is a
-- `String`; an empty optional reference stands for NULL in a row.
use codebridge.Base.{
  ℕ, suc, ◌*◌, ◌/◌, String, Bool, true, false, Option, none, some, List, [], ◌∷◌, str_eq, nat_eq,
  if◌then◌else◌,
}
use codebridge.Base.Text.{codes, cut_prefix}

-- Go's zero time, or nanoseconds since the Unix epoch.
pub data Time : Type 0 where
  unset : Time
  at : ℕ → Time

abbrev pub is_zero : Time → Bool
is_zero unset = true
is_zero (at n) = false

unfoldable pub ms : Time → ℕ
ms unset = 0
ms (at n) = n / 1000000

unfoldable pub time_from_ms : ℕ → Time
time_from_ms v = if nat_eq v 0 then unset else at (v * 1000000)

pub data RunStatus : Type 0 where
  queued running completed failed cancelled timeout interrupted : RunStatus
  unknown_status : String → RunStatus

unfoldable pub is_terminal : RunStatus → Bool
is_terminal queued = false
is_terminal running = false
is_terminal (unknown_status s) = false
is_terminal _ = true

unfoldable pub is_valid : RunStatus → Bool
is_valid (unknown_status s) = false
is_valid _ = true

-- The status as the text that the row holds and `"run." + string(status)` ends in.
unfoldable pub status_text : RunStatus → String
status_text queued = "queued"
status_text running = "running"
status_text completed = "completed"
status_text failed = "failed"
status_text cancelled = "cancelled"
status_text timeout = "timeout"
status_text interrupted = "interrupted"
status_text (unknown_status s) = s

pub data ControllerKind : Type 0 where
  agent human nobody : ControllerKind
  unknown_kind : String → ControllerKind

pub data ControllerChannel : Type 0 where
  no_channel local remote : ControllerChannel
  unknown_channel : String → ControllerChannel

pub record Controller : Type 0 where
  pub kind : ControllerKind
  pub holder : String
  pub channel : ControllerChannel

pub record ProjectRoot : Type 0 where
  pub path : String
  pub writable : Bool

pub record Project (T : Type 0) : Type 0 where
  pub id : String
  pub name : String
  pub roots : List ProjectRoot
  pub sensitive_paths : List String
  pub created_at : T
  pub updated_at : T

pub record Session (T : Type 0) : Type 0 where
  pub id : String
  pub project_id : String
  pub title : String
  pub caller_class : String
  pub external_conversation : String
  pub status : String
  pub created_at : T
  pub updated_at : T

pub record Run (T : Type 0) : Type 0 where
  pub id : String
  pub session_id : String
  pub project_id : String
  pub kind : String
  pub provider : String
  pub model : String
  pub autonomy : String
  pub role : String
  pub parent_run_id : String
  pub continues_run_id : String
  pub provider_session_id : String
  pub status : RunStatus
  pub process_pid : ℕ
  pub process_started_at : T
  pub process_group_id : ℕ
  pub output_ref : String
  pub error_category : String
  pub last_seq : ℕ
  pub created_at : T
  pub started_at : T
  pub finished_at : T

pub record ProviderSession (T : Type 0) : Type 0 where
  pub id : String
  pub provider : String
  pub native_id : String
  pub locator : String
  pub project_id : String
  pub can_resume : Bool
  pub can_history : Bool
  pub created_at : T
  pub updated_at : T

pub record ComputerSession (T : Type 0) : Type 0 where
  pub id : String
  pub session_id : String
  pub run_id : String
  pub target : String
  pub state : String
  pub controller : Controller
  pub controller_epoch : ℕ
  pub arbiter_instance : String
  pub lease_holder : String
  pub lease_expires_at : T
  pub can_observe : Bool
  pub can_input : Bool
  pub can_preview : Bool
  pub granted_verbs : List String
  pub app_selectors : List String
  pub last_frame_id : String
  pub geometry_generation : ℕ
  pub created_at : T
  pub updated_at : T

-- One journal entry.
pub record Event (T : Type 0) : Type 0 where
  pub pos : ℕ
  pub stream : String
  pub seq : ℕ
  pub moment : T
  pub session_id : String
  pub project_id : String
  pub source : String
  pub kind : String
  pub turn_ref : String
  pub correlation_id : String
  pub payload : String
  pub raw_ref : String

-- Prefixing by "run:", "computer:" and "session:".
unfoldable pub stream_run : String → String
stream_run id = String.◌∷◌ "r" (String.◌∷◌ "u" (String.◌∷◌ "n" (String.◌∷◌ ":" id)))

unfoldable pub stream_computer : String → String
stream_computer id = String.◌∷◌ "c" (
    String.◌∷◌ "o" (
      String.◌∷◌ "m" (
        String.◌∷◌ "p"
          (String.◌∷◌ "u" (String.◌∷◌ "t" (String.◌∷◌ "e" (String.◌∷◌ "r" (String.◌∷◌ ":" id))))))))

abbrev not_empty : Option String → Option String
not_empty none = none
not_empty (some id) = if str_eq id "" then none else some id

unfoldable pub run_id_from_stream : String → Option String
run_id_from_stream stream = not_empty (cut_prefix stream (codes "run:"))

pub data Error : Type 0 where
  id_required wrong_prefix text_required : Error
  not_found sql_constraint illegal_transition : Error
  unknown_run_status timestamp_required bad_controller : Error
  begin_failed commit_failed : Error
  event_gap : ℕ → ℕ → Error

abbrev prefixed : Option String → Option Error
prefixed none = some wrong_prefix
prefixed (some rest) = none

-- `checkID(id, prefix)`; `none` is Go's nil error.
unfoldable pub check_id : String → String → Option Error
check_id id prefix =
    if str_eq id "" then some id_required else prefixed (cut_prefix id (codes prefix))

unfoldable pub require_text : String → Option Error
require_text v = if str_eq v "" then some text_required else none

-- `ValidateContiguous`: the first gap among events that should follow `after_seq`.
unfoldable pub validate_from : List (Event Time) → ℕ → Option Error
validate_from [] want = none
validate_from (ev ∷ evs) want =
    let rest = validate_from evs (suc want) in
    if nat_eq ev.seq want then rest else some (event_gap want ev.seq)

unfoldable pub validate_contiguous : List (Event Time) → ℕ → Option Error
unfolding validate_from
validate_contiguous evs after_seq = validate_from evs (suc after_seq)

unfoldable pub controller_error : ControllerKind → ControllerChannel → Option Error
controller_error human local = none
controller_error human remote = none
controller_error human _ = some bad_controller
controller_error agent no_channel = none
controller_error nobody no_channel = none
controller_error _ _ = some bad_controller

-- `validateController`: `none` is a well-formed controller.
unfoldable pub validate_controller : Controller → Option Error
unfolding controller_error
validate_controller c = controller_error c.kind c.channel
