-- ===== src/Authstore/Failing.antt =====
-- A call of `EnrollDevice` that fails undoes what it did.
use codebridge.Base.{
  ℕ, String, Bool, false, ◌||◌, ◌≡◌, refl, ◌∙◌, Option, none, some, arith, str_eq, eq_iff,
  Bool-cases, inl, inr,
}
use codebridge.Base.Map.{insert, erase, lookup-insert, lookup-erase}
use codebridge.Authstore.{enroll_known, enroll_device}
use codebridge.AuthState.{
  err, Device, Enrollment, Store, Error, lapsed, prune_expired, set_devices, set_enrollments,
}
use codebridge.Authstore.Enrolling.{find_device, find_enrollment, enrolled_as, find-pruned}

known-err :
    (s : Store) (digest : String → String) (now : ℕ) (h id name : String) (oe : Option Enrollment)
    (od : Option Device) (secret : Option String) (saved : Bool) (e : Error)
    → find_enrollment s h ≡ oe
    → find_device s id ≡ od
    → (enroll_known s digest now h id name oe od secret saved).1 ≡ err e
    → let s' = (enroll_known s digest now h id name oe od secret saved).0 in
      ((k : String) → find_device s' k ≡ find_device s k)
      × ((k : String) → find_enrollment s' k ≡ find_enrollment s k)
unfolding set_devices set_enrollments
known-err s digest now h id name none od secret saved e p q f = (λ k. refl, λ k. refl)
known-err s digest now h id name (some entry) (some d) secret saved e p q f = (λ k. refl, λ k. refl)
known-err s digest now h id name (some entry) none none saved e p q f =
    (λ k. ground arith, λ k. ground arith)
known-err s digest now h id name (some entry) none (some credential) saved e p q f =
    let d = enrolled_as digest now id name entry credential in
    (
      λ k. ground (
        arith,
        lookup-erase id k (insert id d s.state.devices),
        lookup-insert id k d s.state.devices,
        eq_iff id k,
      ),
      λ k. ground (
        arith,
        lookup-insert h k entry (erase h s.state.enrollments),
        lookup-erase h k s.state.enrollments,
        eq_iff h k,
      ),
    )

live-kept :
    (s : Store) (now : ℕ) (h : String) (x : Enrollment)
    → find_enrollment s h ≡ some x
    → lapsed now x ≡ false
    → find_enrollment (prune_expired s now) h ≡ some x
live-kept s now h x p l = find-pruned s now h ∙ rw p (ground arith)

pruned-device :
    (s : Store) (now : ℕ) (k : String) → find_device (prune_expired s now) k ≡ find_device s k
unfolding prune_expired
pruned-device s now k = refl

-- A call that fails, also one whose state file could not be written, leaves every device as it was
-- and every code that has not expired usable.
pub enroll_device-err :
    (s : Store) (digest : String → String) (now : ℕ) (code id name : String)
    (secret : Option String) (saved : Bool) (e : Error)
    → (enroll_device s digest now code id name secret saved).1 ≡ err e
    → let s' = (enroll_device s digest now code id name secret saved).0 in
      ((k : String) → find_device s' k ≡ find_device s k)
      × ((h : String) (x : Enrollment)
          → find_enrollment s h ≡ some x
          → lapsed now x ≡ false
          → find_enrollment s' h ≡ some x)
unfolding enroll_device
enroll_device-err s digest now code id name secret saved e f = elim (Bool-cases (str_eq code "")) [
  | inl c ↦ rw c (λ k. refl, λ h x p l. p)
  | inr c ↦ elim (Bool-cases (str_eq id "" || str_eq name "")) [
    | inl n ↦ rw (c, n) (λ k. refl, λ h x p l. p)
    | inr n ↦
        let kept =
          known-err (prune_expired s now) digest now (digest code) id name _ _ secret saved e refl
            refl (rw (c, n) at f) in
        rw (c, n)
          (λ k. kept.0 k ∙ pruned-device s now k, λ h x p l. kept.1 h ∙ live-kept s now h x p l)
  ]
]
