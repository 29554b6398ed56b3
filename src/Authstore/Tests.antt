-- ===== src/Authstore/Tests.antt =====
-- The theorems on the store of devices at small stores. The digest is the identity.
use codebridge.Base.{
  String, true, false, ◌≡◌, ◌≢◌, refl, Option, none, some, [], ◌∷◌, arith, str_ne,
}
use codebridge.Base.Map.{lookup, insert, erase, retain, Each-nil, Each-insert}
use codebridge.Authstore.{
  enroll_device, verify_device, rotate_device, revoke_device, device_account,
}
use codebridge.AuthState.{
  ok, err, invalid_code, not_saved, Device, Enrollment, Store, Result, Error, default_account,
  persisted, prune_expired, set_devices, set_enrollments,
}
use codebridge.Authstore.Enrolling.{find_device, enroll_device-single_use}
use codebridge.Authstore.Credentials.{revoke_device-ok}
use codebridge.Authstore.Validity.{
  DeviceAt, EnrollmentAt, IsValid, enrolls, revokes, run, run-IsValid,
}

abbrev digest : String → String
digest s = s

abbrev device : Device
device = record {
  id = "d1";
  name = "laptop";
  account_id = default_account;
  credential_hash = "secret";
  created_at = 0;
  updated_at = 0;
}

abbrev entry : Enrollment
entry = record { hash = "code"; account_id = default_account; created_at = 0; expires_at = 10 }

abbrev small_store : String → Store
small_store path = record {
  path = path;
  state = record { version = 2; devices = ("d1", device) ∷ []; enrollments = ("code", entry) ∷ [] };
}

default_account-ne : default_account ≢ []
default_account-ne e = ground arith

small_store-IsValid : (path : String) → IsValid (small_store path)
unfolding insert
small_store-IsValid path = record {
  devices_valid =
      Each-insert DeviceAt "d1" device [] (refl, default_account-ne) (Each-nil DeviceAt);
  enrollments_valid =
      Each-insert EnrollmentAt "code" entry [] (refl, default_account-ne) (Each-nil EnrollmentAt);
}

-- `d2` is enrolled with the code.
abbrev enrolled : Store × Result String
enrolled = enroll_device (small_store "") digest 5 "code" "d2" "phone" (some "new") false

enrolls_d2 : enrolled.1 ≡ ok "new"
unfolding enroll_device prune_expired set_enrollments set_devices retain lookup insert erase
    persisted
enrolls_d2 = refl

abbrev names : String × String
names = ("d3", "tablet")

names-ne : (names.0 ≢ "") × (names.1 ≢ "")
names-ne = (str_ne refl, str_ne refl)

enroll_device-single_use_example :
    (enroll_device enrolled.0 digest 6 "code" "d3" "tablet" (some "x") true).1 ≡ err invalid_code
enroll_device-single_use_example =
    enroll_device-single_use (small_store "") digest 5 "code" "d2" "phone" (some "new") false "new"
      6 "d3" "tablet" (some "x") true enrolls_d2 names-ne.0 names-ne.1

abbrev unsaved : Store × Result String
unsaved = enroll_device (small_store "f") digest 5 "code" "d2" "phone" (some "new") false

unsaved_d2 : unsaved.1 ≡ err not_saved
unfolding enroll_device prune_expired set_enrollments set_devices retain lookup insert erase
    persisted
unsaved_d2 = refl

abbrev given : String × String
given = ("d2", "new")

given-ne : (given.0 ≢ "") × (given.1 ≢ "")
given-ne = (str_ne refl, str_ne refl)

abbrev rotated : Store × Result String
rotated = rotate_device (small_store "") digest 5 "d1" (some "new") false

rotates_d1 : rotated.1 ≡ ok "new"
unfolding rotate_device lookup persisted set_devices
rotates_d1 = refl

d1-ne : device.id ≢ ""
d1-ne = str_ne refl

abbrev revoked : Store × Option Error
revoked = revoke_device (small_store "") "d1" false

revokes_d1 : revoked.1 ≡ none
unfolding revoke_device lookup persisted set_devices
revokes_d1 = refl

revoke_device-ok_example :
    ((x : String) → verify_device revoked.0 digest "d1" x ≡ false)
    × (device_account revoked.0 "d1" ≡ none)
    × ((k : String) → device.id ≢ k → find_device revoked.0 k ≡ find_device (small_store "") k)
revoke_device-ok_example = revoke_device-ok (small_store "") digest "d1" false revokes_d1

in_file :
    (persisted (small_store "f") false ≡ false) × (find_device (small_store "f") "d1" ≡ some device)
unfolding persisted lookup
in_file = (refl, refl)

abbrev new_name : String
new_name = "desk"

renamed : (new_name ≢ "") × (device.name ≢ new_name)
renamed = (str_ne refl, str_ne refl)

run-IsValid_example : IsValid (
    run
      (small_store "f")
      digest
      ((5, enrolls "code" "d2" "phone" (some "new") false) ∷ (6, revokes "d1" true) ∷ []))
run-IsValid_example =
    run-IsValid (small_store "f") digest
      ((5, enrolls "code" "d2" "phone" (some "new") false) ∷ (6, revokes "d1" true) ∷ [])
      (small_store-IsValid "f")
