-- ===== src/Authstore/Validity.antt =====
-- What holds of the store between two calls.
use codebridge.Base.{
  ℕ, String, Bool, true, false, ◌≡◌, ◌≢◌, ◌||◌, not, refl, Option, none, some, List, [], ◌∷◌, arith,
  str_eq, if◌then◌else◌,
}
use codebridge.Base.Map.{Dict, lookup, erase, Each, Each-nil, Each-insert, Each-erase, Each-retain}
use codebridge.Base.Text.{Text, trim_space}
use codebridge.Authstore.{
  create_checked, create_enrollment, enroll_known, enroll_device, rename, update_device_name,
  rotate, rotate_device, revoke, revoke_device,
}
use codebridge.AuthState.{
  Device, Enrollment, Store, Error, validate_account_id, persisted, lapsed, prune_expired,
  set_devices, set_enrollments, empty_state,
}

-- A device is filed under its id, an enrollment under its digest, and both name an account.
abbrev pub DeviceAt : String → Device → Type 0
DeviceAt k d = (d.id ≡ k) × (d.account_id ≢ [])

abbrev pub EnrollmentAt : String → Enrollment → Type 0
EnrollmentAt k e = (e.hash ≡ k) × (e.account_id ≢ [])

pub record IsValid (s : Store) : Type 0 where
  pub devices_valid : Each DeviceAt s.state.devices
  pub enrollments_valid : Each EnrollmentAt s.state.enrollments

set_devices-IsValid :
    (s : Store) (m : Dict Device) → Each DeviceAt m → IsValid s → IsValid (set_devices s m)
unfolding set_devices
set_devices-IsValid s m h v = record { devices_valid = h; enrollments_valid = v.enrollments_valid }

set_enrollments-IsValid :
    (s : Store) (m : Dict Enrollment)
    → Each EnrollmentAt m
    → IsValid s
    → IsValid (set_enrollments s m)
unfolding set_enrollments
set_enrollments-IsValid s m h v = record { devices_valid = v.devices_valid; enrollments_valid = h }

prune_expired-IsValid : (s : Store) (now : ℕ) → IsValid s → IsValid (prune_expired s now)
unfolding prune_expired
prune_expired-IsValid s now v = record {
  devices_valid = v.devices_valid;
  enrollments_valid =
      Each-retain EnrollmentAt (λ e. not (lapsed now e)) s.state.enrollments v.enrollments_valid;
}

-- Both branches of a test on whether the file was written.
branch-IsValid {ℓ} :
    {A : Type ℓ} (b : Bool) (x y : Store × A)
    → IsValid x.0
    → IsValid y.0
    → IsValid (if b then x else y).0
branch-IsValid true x y h k = h
branch-IsValid false x y h k = k

validate_account_id-none : (a : Text) → validate_account_id a ≡ none → a ≢ []
unfolding validate_account_id
validate_account_id-none [] h = absurd (ground arith)
validate_account_id-none (c ∷ a) h = λ e. cc

create_checked-IsValid :
    (s : Store) (digest : String → String) (now ttl : ℕ) (a : Text) (secret : Option String)
    (saved : Bool) (oe : Option Error)
    → (oe ≡ none → a ≢ [])
    → IsValid s
    → IsValid (create_checked s digest now ttl a secret saved oe).0
create_checked-IsValid s digest now ttl a secret saved (some e) h v = v
create_checked-IsValid s digest now ttl a none saved none h v = v
create_checked-IsValid s digest now ttl a (some secret) saved none h v =
    let p = prune_expired s now in
    let w = prune_expired-IsValid s now v in
    let added =
      Each-insert EnrollmentAt (digest secret) _ p.state.enrollments (refl, h refl)
        w.enrollments_valid in
    branch-IsValid (persisted p saved) _ _ (set_enrollments-IsValid p _ added w)
      (set_enrollments-IsValid p _ (Each-erase EnrollmentAt (digest secret) _ added) w)

enroll_known-IsValid :
    (s : Store) (digest : String → String) (now : ℕ) (h id name : String) (oe : Option Enrollment)
    (od : Option Device) (secret : Option String) (saved : Bool)
    → lookup h s.state.enrollments ≡ oe
    → IsValid s
    → IsValid (enroll_known s digest now h id name oe od secret saved).0
enroll_known-IsValid s digest now h id name none od secret saved p v = v
enroll_known-IsValid s digest now h id name (some entry) (some d) secret saved p v = v
enroll_known-IsValid s digest now h id name (some entry) none none saved p v =
    branch-IsValid (lapsed now entry) _ _ v v
enroll_known-IsValid s digest now h id name (some entry) none (some c) saved p v =
    let e = v.enrollments_valid h entry p in
    let fewer = Each-erase EnrollmentAt h s.state.enrollments v.enrollments_valid in
    let more = Each-insert DeviceAt id _ s.state.devices (refl, e.1) v.devices_valid in
    let s1 = set_enrollments s (erase h s.state.enrollments) in
    let v1 = set_enrollments-IsValid s _ fewer v in
    let v2 = set_devices-IsValid s1 _ more v1 in
    branch-IsValid (lapsed now entry) _ _ v (
      branch-IsValid (persisted s saved) _ _ v2 (
        set_enrollments-IsValid _ _ (Each-insert EnrollmentAt h entry _ e v2.enrollments_valid)
          (set_devices-IsValid _ _ (Each-erase DeviceAt id _ v2.devices_valid) v2)))

rename-IsValid :
    (s : Store) (now : ℕ) (id name : String) (od : Option Device) (saved : Bool)
    → lookup id s.state.devices ≡ od
    → IsValid s
    → IsValid (rename s now id name od saved).0
rename-IsValid s now id name none saved p v = v
rename-IsValid s now id name (some d) saved p v = branch-IsValid (str_eq d.name name) _ _ v (
    set_devices-IsValid s _
      (Each-insert DeviceAt id _ s.state.devices (v.devices_valid id d p) v.devices_valid) v)

abbrev rotated : Device → (String → String) → String → ℕ → Device
rotated d digest c now = record d { credential_hash = digest c; updated_at = now }

rotate-IsValid :
    (s : Store) (digest : String → String) (now : ℕ) (id : String) (od : Option Device)
    (secret : Option String) (saved : Bool)
    → lookup id s.state.devices ≡ od
    → IsValid s
    → IsValid (rotate s digest now id od secret saved).0
rotate-IsValid s digest now id none secret saved p v = v
rotate-IsValid s digest now id (some d) none saved p v = v
rotate-IsValid s digest now id (some d) (some c) saved p v =
    let at = v.devices_valid id d p in
    let v1 =
      set_devices-IsValid s _
        (Each-insert DeviceAt id (rotated d digest c now) _ at v.devices_valid) v in
    branch-IsValid (persisted s saved) _ _ v1
      (set_devices-IsValid _ _ (Each-insert DeviceAt id d _ at v1.devices_valid) v1)

revoke-IsValid :
    (s : Store) (id : String) (od : Option Device) (saved : Bool)
    → lookup id s.state.devices ≡ od
    → IsValid s
    → IsValid (revoke s id od saved).0
revoke-IsValid s id none saved p v = v
revoke-IsValid s id (some d) saved p v =
    let at = v.devices_valid id d p in
    let v1 = set_devices-IsValid s _ (Each-erase DeviceAt id _ v.devices_valid) v in
    branch-IsValid (persisted s saved) _ _ v1
      (set_devices-IsValid _ _ (Each-insert DeviceAt id d _ at v1.devices_valid) v1)

-- The calls that change the store, with what they draw from outside.
pub data Call : Type 0 where
  creates : ℕ → Text → Option String → Bool → Call
  enrolls : String → String → String → Option String → Bool → Call
  renames : String → String → Bool → Call
  rotates : String → Option String → Bool → Call
  revokes : String → Bool → Call

unfoldable pub step : Store → (String → String) → ℕ → Call → Store
step s digest now (creates ttl account secret saved) =
    (create_enrollment s digest now ttl account secret saved).0
step s digest now (enrolls code id name secret saved) =
    (enroll_device s digest now code id name secret saved).0
step s digest now (renames id name saved) = (update_device_name s now id name saved).0
step s digest now (rotates id secret saved) = (rotate_device s digest now id secret saved).0
step s digest now (revokes id saved) = (revoke_device s id saved).0

unfoldable pub run : Store → (String → String) → List (ℕ × Call) → Store
run s digest [] = s
run s digest ((now, c) ∷ cs) = run (step s digest now c) digest cs

enroll_device-IsValid :
    (s : Store) (digest : String → String) (now : ℕ) (code id name : String)
    (secret : Option String) (saved : Bool)
    → IsValid s
    → IsValid (enroll_device s digest now code id name secret saved).0
unfolding enroll_device
enroll_device-IsValid s digest now code id name secret saved v =
    branch-IsValid (str_eq code "") _ _ v (
      branch-IsValid (str_eq id "" || str_eq name "") _ _ v (
        enroll_known-IsValid (prune_expired s now) digest now (digest code) id name _ _ secret saved
          refl (prune_expired-IsValid s now v)))

step-IsValid :
    (s : Store) (digest : String → String) (now : ℕ) (c : Call)
    → IsValid s
    → IsValid (step s digest now c)
unfolding step create_enrollment update_device_name rotate_device revoke_device
step-IsValid s digest now (creates ttl account secret saved) v =
    create_checked-IsValid s digest now ttl (trim_space account) secret saved _
      (validate_account_id-none (trim_space account)) v
step-IsValid s digest now (enrolls code id name secret saved) v =
    enroll_device-IsValid s digest now code id name secret saved v
step-IsValid s digest now (renames id name saved) v =
    branch-IsValid (str_eq name "") _ _ v
      (rename-IsValid s now id name (lookup id s.state.devices) saved refl v)
step-IsValid s digest now (rotates id secret saved) v =
    rotate-IsValid s digest now id (lookup id s.state.devices) secret saved refl v
step-IsValid s digest now (revokes id saved) v =
    revoke-IsValid s id (lookup id s.state.devices) saved refl v

-- However the calls on a valid store follow one another, and whether or not the state file can be
-- written, a device stays filed under its own id and bound to an account that is not empty, and so
-- does every enrollment under its digest.
pub run-IsValid :
    (s : Store) (digest : String → String) (calls : List (ℕ × Call))
    → IsValid s
    → IsValid (run s digest calls)
unfolding run
run-IsValid s digest [] v = v
run-IsValid s digest ((now, c) ∷ cs) v =
    run-IsValid (step s digest now c) digest cs (step-IsValid s digest now c v)

pub empty-IsValid : (path : String) → IsValid (record { path = path; state = empty_state })
empty-IsValid path = record {
  devices_valid = Each-nil DeviceAt;
  enrollments_valid = Each-nil EnrollmentAt;
}
