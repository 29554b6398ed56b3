-- ===== src/Authstore/Credentials.antt =====
-- Which credential opens which device, before and after rotation, renaming and revocation.
use codebridge.Base.{
  ℕ, String, Bool, true, false, ◌≡◌, ◌≢◌, ◌||◌, refl, sym, ap, ◌∙◌, [], ◌∷◌, Option, none, some,
  arith, str_eq, eq_iff, Bool-cases, inl, inr, if◌then◌else◌,
}
use mathlib.Core.Option
use mathlib.Core.Bool.{false≢true}
use codebridge.Base.Map.{insert, erase, lookup-insert, lookup-erase, lookup-insert_self}
use codebridge.Base.Text.{Text, is_empty}
use codebridge.Authstore.{
  enroll_device, verify_device, update_device_name, rotate, rotate_device, revoke, revoke_device,
  device_account,
}
use codebridge.AuthState.{ok, err, not_saved, Device, Store, persisted, set_devices}
use codebridge.Authstore.Enrolling.{find_device, find_enrollment, enroll_device-ok}
use codebridge.Authstore.Validity.{IsValid}

verify-found :
    (s : Store) (digest : String → String) (id credential : String) (d : Device)
    → id ≢ ""
    → credential ≢ ""
    → find_device s id ≡ some d
    → verify_device s digest id credential ≡ str_eq (digest credential) d.credential_hash
unfolding verify_device
verify-found s digest id credential d i c h =
    let given : (str_eq id "" || str_eq credential "") ≡ false =
      ground (arith, eq_iff id "", eq_iff credential "") in
    rw (given, h) refl

is_empty-ne : (a : Text) → a ≢ [] → is_empty a ≡ false
is_empty-ne [] h = absurd (h refl)
is_empty-ne (c ∷ a) h = refl

-- A device that was enrolled in a valid store, under an id that is not empty, is let in with the
-- credential returned, if that is not empty, and belongs to the account that its code was issued
-- for.
pub enroll_device-verifies :
    (s : Store) (digest : String → String) (now : ℕ) (code id name : String)
    (secret : Option String) (saved : Bool) (c : String)
    → IsValid s
    → id ≢ ""
    → c ≢ ""
    → (enroll_device s digest now code id name secret saved).1 ≡ ok c
    → let s' = (enroll_device s digest now code id name secret saved).0 in
      (verify_device s' digest id c ≡ true)
      × (device_account s' id ≡ Option.map (λ e. e.account_id) (find_enrollment s (digest code)))
unfolding device_account
enroll_device-verifies s digest now code id name secret saved c v i n h =
    let (entry, there, live, free, device, gone) =
      enroll_device-ok s digest now code id name secret saved c h in
    let s' = (enroll_device s digest now code id name secret saved).0 in
    let named = v.enrollments_valid (digest code) entry there in
    let given : str_eq id "" ≡ false = ground (arith, eq_iff id "") in
    (
      verify-found s' digest id c _ i n device ∙ (eq_iff (digest c) (digest c)).1 refl,
      rw (given, device, there, is_empty-ne entry.account_id named.1) refl,
    )

rotate-ok :
    (s : Store) (digest : String → String) (now : ℕ) (id : String) (od : Option Device)
    (secret : Option String) (saved : Bool) (c : String)
    → (rotate s digest now id od secret saved).1 ≡ ok c
    → (d : Device) × (od ≡ some d)
      × (find_device (rotate s digest now id od secret saved).0 id
          ≡ some (record d { credential_hash = digest c; updated_at = now }))
      × ((k : String)
          → id ≢ k
          → find_device (rotate s digest now id od secret saved).0 k ≡ find_device s k)
unfolding set_devices
rotate-ok s digest now id none secret saved c h = ground arith
rotate-ok s digest now id (some d) none saved c h = ground arith
rotate-ok s digest now id (some d) (some x) saved c h = (
  d,
  refl,
  ground (
    arith,
    lookup-insert_self id (record d { credential_hash = digest x; updated_at = now })
        s.state.devices,
  ),
  λ k n. ground (
    arith,
    lookup-insert id k (record d { credential_hash = digest x; updated_at = now }) s.state.devices,
    eq_iff id k,
  ),
)

same_answer :
    (digest : String → String)
    → ((a b : String) → digest a ≡ digest b → a ≡ b)
    → (x c : String) → str_eq (digest x) (digest c) ≡ str_eq x c
same_answer digest inj x c = elim (Bool-cases (str_eq x c)) [
  | inl e ↦ rw e ((eq_iff (digest x) (digest c)).1 (ap digest ((eq_iff x c).0 e)))
  | inr e ↦ elim (Bool-cases (str_eq (digest x) (digest c))) [
    | inl f ↦
        absurd (false≢true (sym e ∙ (eq_iff x c).1 (inj x c ((eq_iff (digest x) (digest c)).0 f))))
    | inr f ↦ f ∙ sym e
  ]
]

-- After a rotation that succeeds the device is let in with the new credential and with no other
-- that is not empty, if no two texts have one digest and the id and the new credential are not
-- empty; the other devices are as they were.
pub rotate_device-ok :
    (s : Store) (digest : String → String) (now : ℕ) (id : String) (secret : Option String)
    (saved : Bool) (c : String)
    → ((a b : String) → digest a ≡ digest b → a ≡ b)
    → id ≢ ""
    → c ≢ ""
    → (rotate_device s digest now id secret saved).1 ≡ ok c
    → let s' = (rotate_device s digest now id secret saved).0 in
      ((x : String) → x ≢ "" → verify_device s' digest id x ≡ str_eq x c)
      × ((k : String) → id ≢ k → find_device s' k ≡ find_device s k)
unfolding rotate_device
rotate_device-ok s digest now id secret saved c inj i n h =
    let (d, there, new, rest) = rotate-ok s digest now id (find_device s id) secret saved c h in
    let s' = (rotate s digest now id (find_device s id) secret saved).0 in
    (λ x nx. verify-found s' digest id x _ i nx new ∙ same_answer digest inj x c, rest)

if-same : (b : Bool) → (if b then false else false) ≡ false
if-same true = refl
if-same false = refl

if-none : (b : Bool) → (if◌then◌else◌ {A = Option Text} b none none) ≡ none
if-none true = refl
if-none false = refl

revoke-ok :
    (s : Store) (id : String) (od : Option Device) (saved : Bool)
    → (revoke s id od saved).1 ≡ none
    → (k : String)
    → find_device (revoke s id od saved).0 k ≡ (if str_eq id k then none else find_device s k)
unfolding set_devices
revoke-ok s id none saved h k = ground arith
revoke-ok s id (some d) saved h k = ground (arith, lookup-erase id k s.state.devices)

-- A device whose revocation succeeds is gone: no credential opens it and it has no account. Other
-- devices stay.
pub revoke_device-ok :
    (s : Store) (digest : String → String) (id : String) (saved : Bool)
    → (revoke_device s id saved).1 ≡ none
    → let s' = (revoke_device s id saved).0 in
      ((x : String) → verify_device s' digest id x ≡ false)
      × (device_account s' id ≡ none)
      × ((k : String) → id ≢ k → find_device s' k ≡ find_device s k)
unfolding revoke_device verify_device device_account
revoke_device-ok s digest id saved h =
    let gone = revoke-ok s id (find_device s id) saved h in
    let self : find_device (revoke s id (find_device s id) saved).0 id ≡ none =
      gone id ∙ rw ((eq_iff id id).1 refl) refl in
    (
      λ x. rw self (if-same (str_eq id "" || str_eq x "")),
      rw self (if-none (str_eq id "")),
      λ k n. gone k ∙ ground (arith, eq_iff id k),
    )

-- Where the state file cannot be written, a revocation or a rotation of a device reports it and
-- leaves every device as it was; a renaming to another name that is not empty reports it and keeps
-- the new name.
pub unsaved_calls :
    (s : Store) (digest : String → String) (now : ℕ) (id name c : String) (d : Device)
    → persisted s false ≡ false
    → find_device s id ≡ some d
    → name ≢ ""
    → d.name ≢ name
    → ((revoke_device s id false).1 ≡ some not_saved)
      × ((k : String) → find_device (revoke_device s id false).0 k ≡ find_device s k)
      × ((rotate_device s digest now id (some c) false).1 ≡ err not_saved)
      × ((k : String)
          → find_device (rotate_device s digest now id (some c) false).0 k ≡ find_device s k)
      × ((update_device_name s now id name false).1 ≡ some not_saved)
      × (find_device (update_device_name s now id name false).0 id
          ≡ some (record d { name = name; updated_at = now }))
unfolding revoke_device rotate_device update_device_name
unsaved_calls s digest now id name c d unsaved there given other =
    let new_name : str_eq name "" ≡ false = ground (arith, eq_iff name "") in
    let renamed : str_eq d.name name ≡ false = ground (arith, eq_iff d.name name) in
    let new : Device = record d { credential_hash = digest c; updated_at = now } in
    (
      rw (there, unsaved) refl,
      λ k.
          rw (there, unsaved)
            (ground (
              arith,
              lookup-insert id k d (erase id s.state.devices),
              lookup-erase id k s.state.devices,
              eq_iff id k,
            )),
      rw (there, unsaved) refl,
      λ k.
          rw (there, unsaved)
            (ground (
              arith,
              lookup-insert id k d (insert id new s.state.devices),
              lookup-insert id k new s.state.devices,
              eq_iff id k,
            )),
      rw (new_name, there, renamed, unsaved) refl,
      rw (new_name, there, renamed)
          (lookup-insert_self id (record d { name = name; updated_at = now }) s.state.devices),
    )
