-- ===== src/Authstore/Enrolling.antt =====
-- Enrollment codes: what a success shows, and that a code serves once.
use codebridge.Base.{
  ℕ, String, Bool, false, not, ◌||◌, ◌≡◌, ◌≢◌, refl, sym, ap, ◌∙◌, Option, none, some, arith,
  str_eq, eq_iff, Bool-cases, inl, inr,
}
use codebridge.Base.Map.{lookup, keep, lookup-retain, lookup-erase_self, lookup-insert_self}
use codebridge.Authstore.{enroll_known, enroll_device}
use codebridge.AuthState.{
  ok, err, invalid_code, Device, Enrollment, Store, lapsed, prune_expired, set_devices,
  set_enrollments,
}

-- The parts of the store that both calls below read.
abbrev pub find_device : Store → String → Option Device
find_device s id = lookup id s.state.devices

abbrev pub find_enrollment : Store → String → Option Enrollment
find_enrollment s h = lookup h s.state.enrollments

abbrev pub enrolled_as : (String → String) → ℕ → String → String → Enrollment → String → Device
enrolled_as digest now id name entry credential = record {
  id = id;
  name = name;
  account_id = entry.account_id;
  credential_hash = digest credential;
  created_at = now;
  updated_at = now;
}

keep-live :
    (now : ℕ) (o : Option Enrollment) (e : Enrollment)
    → keep (λ x. not (lapsed now x)) o ≡ some e
    → (o ≡ some e) × (lapsed now e ≡ false)
keep-live now none e h = ground arith
keep-live now (some x) e h = ground arith

known-ok :
    (s : Store) (digest : String → String) (now : ℕ) (h id name : String) (oe : Option Enrollment)
    (od : Option Device) (secret : Option String) (saved : Bool) (c : String)
    → (enroll_known s digest now h id name oe od secret saved).1 ≡ ok c
    → (entry : Enrollment) × (oe ≡ some entry)
      × (od ≡ none)
      × (find_device (enroll_known s digest now h id name oe od secret saved).0 id
          ≡ some (enrolled_as digest now id name entry c))
      × (find_enrollment (enroll_known s digest now h id name oe od secret saved).0 h ≡ none)
unfolding set_devices set_enrollments
known-ok s digest now h id name none od secret saved c e = ground arith
known-ok s digest now h id name (some entry) (some d) secret saved c e = ground arith
known-ok s digest now h id name (some entry) none none saved c e = ground arith
known-ok s digest now h id name (some entry) none (some credential) saved c e = (
  entry,
  refl,
  refl,
  ground (
    arith,
    lookup-insert_self id (enrolled_as digest now id name entry credential) s.state.devices,
  ),
  ground (arith, lookup-erase_self h s.state.enrollments),
)

-- The call past its argument checks.
enroll_device-known :
    (s : Store) (digest : String → String) (now : ℕ) (code id name : String)
    (secret : Option String) (saved : Bool) (c : String)
    → (enroll_device s digest now code id name secret saved).1 ≡ ok c
    → enroll_device s digest now code id name secret saved
      ≡ enroll_known
          (prune_expired s now)
          digest
          now
          (digest code)
          id
          name
          (find_enrollment (prune_expired s now) (digest code))
          (find_device (prune_expired s now) id)
          secret
          saved
unfolding enroll_device
enroll_device-known s digest now code id name secret saved c h =
    elim (Bool-cases (str_eq code "")) [
      | inl e ↦ absurd (ground arith)
      | inr e ↦ elim (Bool-cases (str_eq id "" || str_eq name "")) [
        | inl f ↦ absurd (ground arith)
        | inr f ↦ rw (e, f) refl
      ]
    ]

pub find-pruned :
    (s : Store) (now : ℕ) (h : String)
    → find_enrollment (prune_expired s now) h ≡ keep (λ e. not (lapsed now e)) (find_enrollment s h)
unfolding prune_expired
find-pruned s now h = lookup-retain (λ e. not (lapsed now e)) h s.state.enrollments

-- A device is enrolled only by a code whose entry exists and has not expired, under an id that is
-- free. It then belongs to the entry's account and has the digest of the credential returned, and
-- the entry is gone.
pub enroll_device-ok :
    (s : Store) (digest : String → String) (now : ℕ) (code id name : String)
    (secret : Option String) (saved : Bool) (c : String)
    → (enroll_device s digest now code id name secret saved).1 ≡ ok c
    → (entry : Enrollment) × (find_enrollment s (digest code) ≡ some entry)
      × (lapsed now entry ≡ false)
      × (find_device s id ≡ none)
      × (find_device (enroll_device s digest now code id name secret saved).0 id
          ≡ some (enrolled_as digest now id name entry c))
      × (find_enrollment (enroll_device s digest now code id name secret saved).0 (digest code)
          ≡ none)
enroll_device-ok s digest now code id name secret saved c h =
    let same = enroll_device-known s digest now code id name secret saved c h in
    let p = prune_expired s now in
    let (entry, there, free, device, gone) =
      known-ok p digest now (digest code) id name (find_enrollment p (digest code))
        (find_device p id) secret saved c (ap (λ r. r.1) (sym same) ∙ h) in
    let live =
      keep-live now (find_enrollment s (digest code)) entry
        (sym (find-pruned s now (digest code)) ∙ there) in
    (
      entry,
      live.0,
      live.1,
      unfold prune_expired in free,
      ap (λ r. find_device r.0 id) same ∙ device,
      ap (λ r. find_enrollment r.0 (digest code)) same ∙ gone,
    )

code-given :
    (s : Store) (digest : String → String) (now : ℕ) (code id name : String)
    (secret : Option String) (saved : Bool) (c : String)
    → (enroll_device s digest now code id name secret saved).1 ≡ ok c
    → str_eq code "" ≡ false
unfolding enroll_device
code-given s digest now code id name secret saved c h = elim (Bool-cases (str_eq code "")) [
  | inl e ↦ absurd (ground arith)
  | inr e ↦ e
]

enroll_device-unknown :
    (s : Store) (digest : String → String) (now : ℕ) (code id name : String)
    (secret : Option String) (saved : Bool)
    → str_eq code "" ≡ false
    → id ≢ ""
    → name ≢ ""
    → find_enrollment s (digest code) ≡ none
    → (enroll_device s digest now code id name secret saved).1 ≡ err invalid_code
unfolding enroll_device
enroll_device-unknown s digest now code id name secret saved c i n g =
    let known : (str_eq id "" || str_eq name "") ≡ false =
      ground (arith, eq_iff id "", eq_iff name "") in
    let unknown : find_enrollment (prune_expired s now) (digest code) ≡ none =
      find-pruned s now (digest code) ∙ rw g refl in
    rw (c, known, unknown) refl

-- Once a code has enrolled a device it enrolls no other, whatever the time, the secret, and the id
-- and name, which are not empty.
pub enroll_device-single_use :
    (s : Store) (digest : String → String) (now : ℕ) (code id name : String)
    (secret : Option String) (saved : Bool) (c : String) (later : ℕ) (id' name' : String)
    (secret' : Option String) (saved' : Bool)
    → (enroll_device s digest now code id name secret saved).1 ≡ ok c
    → id' ≢ ""
    → name' ≢ ""
    → (enroll_device
        (enroll_device s digest now code id name secret saved).0
        digest
        later
        code
        id'
        name'
        secret'
        saved').1
      ≡ err invalid_code
enroll_device-single_use s digest now code id name secret saved c later id' name' secret' saved' h i
      n =
    let s1 = (enroll_device s digest now code id name secret saved).0 in
    let (entry, there, live, free, device, gone) =
      enroll_device-ok s digest now code id name secret saved c h in
    enroll_device-unknown s1 digest later code id' name' secret' saved'
      (code-given s digest now code id name secret saved c h) i n gone
