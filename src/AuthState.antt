-- ===== src/AuthState.antt =====
-- internal/authstore/store.go: the store, how it is opened, and what every operation on it does: the
-- write of the state file and the removal of expired enrollments.
use codebridge.Base.{
  ℕ, String, Bool, ◌||◌, not, Option, none, some, [], ltb, nat_eq, str_eq, if◌then◌else◌,
}
use codebridge.Base.Map.{Dict, retain, map_values}
use codebridge.Base.Text.{Text, codes, is_empty, byte_len}

abbrev pub state_version : ℕ
state_version = 2

abbrev pub default_account : Text
default_account = codes "default"

abbrev pub max_account_id_bytes : ℕ
max_account_id_bytes = 128

pub record Device : Type 0 where
  pub id : String
  pub name : String
  pub account_id : Text
  pub credential_hash : String
  pub created_at : ℕ
  pub updated_at : ℕ

pub record Enrollment : Type 0 where
  pub hash : String
  pub account_id : Text
  pub created_at : ℕ
  pub expires_at : ℕ

pub record PersistedState : Type 0 where
  pub version : ℕ
  pub devices : Dict Device
  pub enrollments : Dict Enrollment

pub record Store : Type 0 where
  pub path : String
  pub state : PersistedState

pub data Error : Type 0 where
  unreadable undecodable unsupported_version : Error
  account_required account_too_long code_required id_and_name_required : Error
  invalid_code already_enrolled not_enrolled no_randomness not_saved : Error

pub data Result {ℓ} (A : Type ℓ) : Type ℓ where
  ok : A → Result A
  err : Error → Result A

-- What reading and decoding the state file gives; `decoded` is the state after json.Unmarshal.
pub data StateFile : Type 0 where
  missing unreadable_file undecodable_file : StateFile
  decoded : PersistedState → StateFile

abbrev pub empty_state : PersistedState
empty_state = record { version = state_version; devices = []; enrollments = [] }

-- Version 1 had no accounts.
unfoldable pub migrated : PersistedState → PersistedState
migrated st =
    if nat_eq st.version 1
    then record {
      version = state_version;
      devices = map_values (λ d. record d { account_id = default_account }) st.devices;
      enrollments = map_values (λ e. record e { account_id = default_account }) st.enrollments;
    }
    else st

abbrev pub read_state : String → StateFile → Result Store
read_state path missing = ok (record { path = path; state = empty_state })
read_state path unreadable_file = err unreadable
read_state path undecodable_file = err undecodable
read_state path (decoded st) =
    if nat_eq st.version 1 || nat_eq st.version state_version
    then ok (record { path = path; state = migrated st })
    else err unsupported_version

unfoldable pub open_store : String → StateFile → Result Store
unfolding migrated
open_store path file =
    if str_eq path ""
    then ok (record { path = path; state = empty_state })
    else read_state path file

unfoldable pub validate_account_id : Text → Option Error
validate_account_id account =
    if is_empty account
    then some account_required
    else (if ltb max_account_id_bytes (byte_len account) then some account_too_long else none)

-- `persistLocked`: without a path nothing is written and nothing fails.
unfoldable pub persisted : Store → Bool → Bool
persisted s saved = str_eq s.path "" || saved

-- `now.After(e.ExpiresAt)`
abbrev pub lapsed : ℕ → Enrollment → Bool
lapsed now e = ltb e.expires_at now

unfoldable pub set_devices : Store → Dict Device → Store
set_devices s devices = record s { state = record (s.state) { devices = devices } }

unfoldable pub set_enrollments : Store → Dict Enrollment → Store
set_enrollments s enrollments = record s { state = record (s.state) { enrollments = enrollments } }

unfoldable pub prune_expired : Store → ℕ → Store
unfolding set_enrollments
prune_expired s now = set_enrollments s (retain (λ e. not (lapsed now e)) s.state.enrollments)
