-- ===== src/Agentops/Bash/Gate.antt =====
-- What a command needs before it runs.
use codebridge.Base.{
  ℕ, String, Bool, true, false, ◌≡◌, refl, ◌≢◌, ◌⊎◌, inl, inr, Option, none, some, [], ◌∷◌, arith,
  Bool-cases, Option-cases,
}
use codebridge.Base.Map.{Dict, lookup, Any}
use codebridge.Base.Text.{Text, text_eq_iff, trim_space, is_empty}
use codebridge.Agentops.Permissions.{
  PermissionRequest, PermissionStore, Effect, ask, allow, deny, permission_decision,
}
use codebridge.Agentops.Bash.{
  runs, granted_for, req_for, start, unmatched, gated, run_bash, consume_grant_once,
}

-- A grant for the command is set, and its request is still parked.
abbrev pub IsGranted : Dict Bool → Dict PermissionRequest → Text → Type 0
IsGranted granted pending command =
    Any
      (λ id ok.
        (ok ≡ true)
        × (req : PermissionRequest) × (lookup id pending ≡ some req)
        × (req.command ≡ command))
      granted

req_for-some :
    (o : Option PermissionRequest) (command : Text)
    → req_for o command ≡ true
    → (req : PermissionRequest) × (o ≡ some req) × (req.command ≡ command)
req_for-some none command h = ground arith
req_for-some (some req) command h = (req, refl, (text_eq_iff req.command command).0 h)

granted_for-some :
    (granted : Dict Bool) (pending : Dict PermissionRequest) (command : Text) (id : String)
    → granted_for granted pending command ≡ some id
    → IsGranted granted pending command
unfolding granted_for
granted_for-some [] pending command id h = ground arith
granted_for-some ((i, ok) ∷ granted) pending command id h = elim (Bool-cases ok) [
  | inl e ↦ elim (Bool-cases (req_for (lookup i pending) command)) [
    | inl f ↦ let (req, p, q) = req_for-some (lookup i pending) command f in inl (e, req, p, q)
    | inr f ↦ inr (granted_for-some granted pending command id (ground arith))
  ]
  | inr e ↦ inr (granted_for-some granted pending command id (ground arith))
]

start-runs :
    (root : Option String) (c c' : Text) (dir : String)
    → start root c ≡ runs dir c'
    → (root ≡ some dir) × (c' ≡ c)
start-runs none c c' dir h = ground arith
start-runs (some root) c c' dir h = ground arith

consumed-IsGranted :
    (st : PermissionStore) (c : Text)
    → (consume_grant_once st c).1 ≡ true
    → IsGranted st.granted st.pending c
unfolding consume_grant_once
consumed-IsGranted st c h = elim (Option-cases (granted_for st.granted st.pending c)) [
  | inl e ↦ ground arith
  | inr (id, e) ↦ granted_for-some st.granted st.pending c id e
]

unmatched-runs :
    (p : PermissionStore × Bool) (st : PermissionStore) (root : Option String) (fresh : String)
    (now : ℕ) (c c' : Text) (dir : String)
    → (unmatched p st root fresh now c).1 ≡ runs dir c'
    → (p.1 ≡ true) × (root ≡ some dir) × (c' ≡ c)
unmatched-runs (st', true) st root fresh now c c' dir h =
    let (r, s) = start-runs root c c' dir h in (refl, r, s)
unmatched-runs (st', false) st root fresh now c c' dir h = ground arith

gated-runs :
    (e : Effect) (st : PermissionStore) (root : Option String) (fresh : String) (now : ℕ)
    (c c' : Text) (dir : String)
    → (gated e st root fresh now c).1 ≡ runs dir c'
    → (root ≡ some dir) × (c' ≡ c) × ((e ≡ allow) ⊎ ((e ≡ ask) × IsGranted st.granted st.pending c))
gated-runs deny st root fresh now c c' dir h = ground arith
gated-runs allow st root fresh now c c' dir h =
    let (r, s) = start-runs root c c' dir h in (r, s, inl refl)
gated-runs ask st root fresh now c c' dir h =
    let (t, r, s) = unmatched-runs (consume_grant_once st c) st root fresh now c c' dir h in
    (r, s, inr (refl, consumed-IsGranted st c t))

-- A command that runs is the caller's, trimmed and not empty, in the resolved root; and either a
-- rule allows it, or no rule matches it and a grant for exactly this command is set.
pub run_bash-runs :
    (st : PermissionStore) (root : Option String) (fresh : String) (now : ℕ) (command : Text)
    (dir : String) (c : Text)
    → (run_bash st root fresh now command).1 ≡ runs dir c
    → (root ≡ some dir)
      × (c ≡ trim_space command)
      × (c ≢ [])
      × (((permission_decision st "bash" c).0 ≡ allow)
          ⊎ (((permission_decision st "bash" c).0 ≡ ask) × IsGranted st.granted st.pending c))
unfolding run_bash
run_bash-runs st root fresh now command dir c h =
    elim (Bool-cases (is_empty (trim_space command))) [
      | inl e ↦ ground arith
      | inr e ↦
          let (r, s, a) =
            gated-runs (permission_decision st "bash" (trim_space command)).0 st root fresh now
              (trim_space command) c dir (rw e at h) in
          (r, s, ground arith, rw s a)
    ]
