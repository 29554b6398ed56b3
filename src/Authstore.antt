-- ===== src/Authstore.antt =====
-- internal/authstore/store.go: devices, their credentials, and one-time enrollment codes. The
-- store's mutex makes each method one step. Arguments stand for what the code calls: the digest
-- (SHA-256 in hex), the random secret (`none` when rand.Read fails), whether the state file was
-- written, and the time. A duration or time is a number of nanoseconds; a duration of 0 stands for
-- any that is not positive.
pub mod Enrolling
pub mod Failing
pub mod Validity
pub mod Credentials
mod Tests
use codebridge.Base.{
  ℕ, ◌+◌, ◌*◌, String, Bool, true, false, ◌||◌, not, Option, none, some, List, [], ◌∷◌, ltb, nat_eq,
  str_eq, if◌then◌else◌,
}
use codebridge.Base.Map.{Dict, lookup, insert, erase, retain, map_values}
use codebridge.Base.Text.{Text, codes, is_empty, text_eq, trim_space, byte_len}
use codebridge.AuthState.{
  unreadable, undecodable, unsupported_version, account_required, account_too_long, code_required,
  id_and_name_required, invalid_code, already_enrolled, not_enrolled, no_randomness, not_saved, ok,
  err, missing, unreadable_file, undecodable_file, decoded, state_version, default_account,
  max_account_id_bytes, Device, Enrollment, PersistedState, Store, Error, Result, StateFile,
  empty_state, migrated, read_state, open_store, validate_account_id, persisted, lapsed,
  set_devices, set_enrollments, prune_expired,
}

-- 10 minutes and 24 hours.
abbrev pub default_ttl : ℕ
default_ttl = 10 * 60 * 1000000000

abbrev pub max_ttl : ℕ
max_ttl = 24 * 3600 * 1000000000

unfoldable pub clamp_ttl : ℕ → ℕ
clamp_ttl ttl = if nat_eq ttl 0 then default_ttl else (if ltb max_ttl ttl then max_ttl else ttl)

-- The secret is random, so its digest is taken to name no enrollment that exists: on a failed
-- write the code deletes the entry of that digest.
abbrev pub add_enrollment :
    Store → String → Enrollment → Bool → String → ℕ → Store × Result (String × ℕ)
add_enrollment s h e saved secret expires =
    if persisted s saved
    then (set_enrollments s (insert h e s.state.enrollments), ok (secret, expires))
    else (set_enrollments s (erase h (insert h e s.state.enrollments)), err not_saved)

abbrev pub create_checked :
    Store
    → (String → String)
    → ℕ
    → ℕ
    → Text
    → Option String
    → Bool
    → Option Error
    → Store × Result (String × ℕ)
create_checked s digest now ttl account secret saved (some e) = (s, err e)
create_checked s digest now ttl account none saved none = (s, err no_randomness)
create_checked s digest now ttl account (some secret) saved none =
    let expires = now + clamp_ttl ttl in
    let h = digest secret in
    let e : Enrollment = record {
      hash = h;
      account_id = account;
      created_at = now;
      expires_at = expires;
    } in
    add_enrollment (prune_expired s now) h e saved secret expires

unfoldable pub create_enrollment :
    Store → (String → String) → ℕ → ℕ → Text → Option String → Bool → Store × Result (String × ℕ)
unfolding validate_account_id clamp_ttl prune_expired persisted set_enrollments
create_enrollment s digest now ttl account secret saved =
    create_checked s digest now ttl (trim_space account) secret saved
      (validate_account_id (trim_space account))

-- What `EnrollDevice` does with the entry that the code's digest names.
abbrev pub consume :
    Store
    → (String → String)
    → ℕ
    → String
    → String
    → String
    → Enrollment
    → Option String
    → Bool
    → Store × Result String
consume s digest now code_hash id name entry none saved = (s, err no_randomness)
consume s digest now code_hash id name entry (some credential) saved =
    let device : Device = record {
      id = id;
      name = name;
      account_id = entry.account_id;
      credential_hash = digest credential;
      created_at = now;
      updated_at = now;
    } in
    let enrolled =
      set_devices (set_enrollments s (erase code_hash s.state.enrollments))
        (insert id device s.state.devices) in
    if persisted s saved then (enrolled, ok credential) else (
      set_enrollments (set_devices enrolled (erase id enrolled.state.devices))
          (insert code_hash entry enrolled.state.enrollments),
      err not_saved,
    )

abbrev pub enroll_known :
    Store
    → (String → String)
    → ℕ
    → String
    → String
    → String
    → Option Enrollment
    → Option Device
    → Option String
    → Bool
    → Store × Result String
enroll_known s digest now code_hash id name none device secret saved = (s, err invalid_code)
enroll_known s digest now code_hash id name (some entry) (some d) secret saved =
    (s, err (if lapsed now entry then invalid_code else already_enrolled))
enroll_known s digest now code_hash id name (some entry) none secret saved =
    if lapsed now entry
    then (s, err invalid_code)
    else consume s digest now code_hash id name entry secret saved

unfoldable pub enroll_device :
    Store
    → (String → String)
    → ℕ
    → String
    → String
    → String
    → Option String
    → Bool
    → Store × Result String
unfolding prune_expired persisted set_devices set_enrollments
enroll_device s digest now code id name secret saved =
    if str_eq code ""
    then (s, err code_required)
    else (if str_eq id "" || str_eq name ""
        then (s, err id_and_name_required)
        else (let pruned = prune_expired s now in
            enroll_known pruned digest now (digest code) id name
              (lookup (digest code) pruned.state.enrollments) (lookup id pruned.state.devices)
              secret saved))

abbrev pub has_hash : Option Device → String → Bool
has_hash none h = false
has_hash (some d) h = str_eq h d.credential_hash

unfoldable pub verify_device : Store → (String → String) → String → String → Bool
verify_device s digest id credential =
    if str_eq id "" || str_eq credential ""
    then false
    else has_hash (lookup id s.state.devices) (digest credential)

-- On a failed write the new name stays in memory.
abbrev pub rename : Store → ℕ → String → String → Option Device → Bool → Store × Option Error
rename s now id name none saved = (s, some not_enrolled)
rename s now id name (some d) saved = if str_eq d.name name then (s, none) else (
  set_devices s (insert id (record d { name = name; updated_at = now }) s.state.devices),
  (if persisted s saved then none else some not_saved),
)

unfoldable pub update_device_name : Store → ℕ → String → String → Bool → Store × Option Error
unfolding persisted set_devices
update_device_name s now id name saved =
    if str_eq name "" then (s, none) else rename s now id name (lookup id s.state.devices) saved

abbrev pub rotate :
    Store
    → (String → String)
    → ℕ
    → String
    → Option Device
    → Option String
    → Bool
    → Store × Result String
rotate s digest now id none secret saved = (s, err not_enrolled)
rotate s digest now id (some d) none saved = (s, err no_randomness)
rotate s digest now id (some d) (some credential) saved =
    let rotated : Device = record d { credential_hash = digest credential; updated_at = now } in
    let s' = set_devices s (insert id rotated s.state.devices) in
    if persisted s saved
    then (s', ok credential)
    else (set_devices s' (insert id d s'.state.devices), err not_saved)

unfoldable pub rotate_device :
    Store → (String → String) → ℕ → String → Option String → Bool → Store × Result String
unfolding persisted set_devices
rotate_device s digest now id secret saved =
    rotate s digest now id (lookup id s.state.devices) secret saved

abbrev pub revoke : Store → String → Option Device → Bool → Store × Option Error
revoke s id none saved = (s, some not_enrolled)
revoke s id (some d) saved =
    let s' = set_devices s (erase id s.state.devices) in
    if persisted s saved
    then (s', none)
    else (set_devices s' (insert id d s'.state.devices), some not_saved)

unfoldable pub revoke_device : Store → String → Bool → Store × Option Error
unfolding persisted set_devices
revoke_device s id saved = revoke s id (lookup id s.state.devices) saved

abbrev pub account_of : Option Device → Option Text
account_of none = none
account_of (some d) = if is_empty d.account_id then none else some d.account_id

unfoldable pub device_account : Store → String → Option Text
device_account s id = if str_eq id "" then none else account_of (lookup id s.state.devices)
