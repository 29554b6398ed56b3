-- ===== src/Agentops/Bash/Single.antt =====
-- What a once-grant is good for.
use codebridge.Base.{
  ℕ, String, Bool, true, false, ◌≡◌, refl, ◌≢◌, Option, none, some, [], ◌∷◌, arith, Bool-cases,
  str_eq, eq_iff, inl, inr, ap, ◌∙◌, str_eq_refl,
}
use codebridge.Base.Map.{Dict, lookup, insert, erase, lookup-erase_self}
use codebridge.Base.Text.{Text, codes, text_eq, text_eq_iff, trim_space, to_lower, is_empty}
use codebridge.Agentops.Permissions.{
  PermissionRequest, PermissionStore, ask, permission_decision, expired, permission_grant,
}
use codebridge.Agentops.Bash.{
  runs, permission_needed, granted_for, run_bash, subagent_preflight, consume_grant_once,
  ask_permission, unmatched, spent,
}

permission_grant-once :
    (st : PermissionStore) (id : String) (req : PermissionRequest) (now : ℕ)
    → id ≢ ""
    → lookup id st.pending ≡ some req
    → expired now req ≡ false
    → (permission_grant st id (codes "once") now).0
      ≡ record st { granted = insert id true st.granted }
unfolding permission_grant text_eq trim_space to_lower
permission_grant-once st id req now i p e = elim (Bool-cases (str_eq id "")) [
  | inl same ↦ absurd (i ((eq_iff id "").0 same))
  | inr other ↦ rw (other, p, e, permission_grant) refl
]

-- A gate that asks, for a trimmed command.
module _ (st : PermissionStore) (root fresh : String) (now : ℕ) (c : Text) (t : trim_space c ≡ c)
    (n : is_empty c ≡ false) (d : (permission_decision st "bash" c).0 ≡ ask) where
  run_bash-asks :
      run_bash st (some root) fresh now c
      ≡ unmatched (consume_grant_once st c) st (some root) fresh now c
  unfolding run_bash
  run_bash-asks = rw (t, n, d) refl

-- The store when only `id` is granted, and when it has been used up.
abbrev once_granted : PermissionStore → String → PermissionStore
once_granted st id = record st { granted = (id, true) ∷ [] }

abbrev used_up : PermissionStore → String → PermissionStore
used_up st id = record st { granted = []; pending = erase id st.pending }

insert_nil :
    (st : PermissionStore) (id : String)
    → record st { granted = insert id true [] } ≡ once_granted st id
unfolding insert
insert_nil st id = refl

ne : (c : Text) → c ≢ [] → is_empty c ≡ false
ne [] h = absurd (h refl)
ne (c ∷ s) h = refl

consume-once :
    (st : PermissionStore) (id : String) (req : PermissionRequest)
    → lookup id st.pending ≡ some req
    → consume_grant_once (once_granted st id) req.command ≡ (used_up st id, true)
unfolding consume_grant_once granted_for erase
consume-once st id req p =
    rw (p, granted_for, (text_eq_iff req.command req.command).1 refl, str_eq_refl id, spent, erase)
      refl

second :
    (st : PermissionStore) (id root fresh : String) (now : ℕ) (c : Text)
    → trim_space c ≡ c
    → is_empty c ≡ false
    → (permission_decision (used_up st id) "bash" c).0 ≡ ask
    → (run_bash (used_up st id) (some root) fresh now c).1
      ≡ permission_needed (ask_permission (used_up st id) fresh now "bash" c).1
unfolding consume_grant_once granted_for
second st id root fresh now c t n d = rw (run_bash-asks (used_up st id) root fresh now c t n d) refl

-- After `once` on a parked request that has not expired, with no other grant set and no rule that
-- matches its command, which is trimmed and not empty, the command runs the first time; the request
-- and the grant are gone then, and the same command asks again. The request's tool does not matter.
pub permission_grant-once_runs_once :
    (st : PermissionStore) (id root fresh : String) (req : PermissionRequest) (now : ℕ)
    → id ≢ ""
    → st.granted ≡ []
    → lookup id st.pending ≡ some req
    → expired now req ≡ false
    → trim_space req.command ≡ req.command
    → req.command ≢ []
    → (permission_decision st "bash" req.command).0 ≡ ask
    → let st1 = (permission_grant st id (codes "once") now).0 in
      let first = run_bash st1 (some root) fresh now req.command in
      let second = run_bash first.0 (some root) fresh now req.command in
      (first.1 ≡ runs root req.command)
      × (lookup id first.0.pending ≡ none)
      × (first.0.granted ≡ [])
      × ((other : String) × (second.1 ≡ permission_needed other))
unfolding permission_decision
permission_grant-once_runs_once st id root fresh req now i g p e t n d =
    let st1 = once_granted st id in
    let st2 = used_up st id in
    let granted : (permission_grant st id (codes "once") now).0 ≡ st1 =
      rw (permission_grant-once st id req now i p e, g) (insert_nil st id) in
    let first : run_bash st1 (some root) fresh now req.command ≡ (st2, runs root req.command) =
      run_bash-asks st1 root fresh now req.command t (ne req.command n) d
      ∙ ap (λ q. unmatched q st1 (some root) fresh now req.command) (consume-once st id req p) in
    rw (granted, first)
      (
        refl,
        lookup-erase_self id st.pending,
        refl,
        (_, second st id root fresh now req.command t (ne req.command n) d),
      )

-- A grant never admits a subagent: the check answers the same whatever grants are set.
pub subagent_preflight-ignores_grants :
    (st : PermissionStore) (granted : Dict Bool) (root : Option String) (fresh : String) (now : ℕ)
    (client : Text)
    → (subagent_preflight (record st { granted = granted }) root fresh now client).1
      ≡ (subagent_preflight st root fresh now client).1
unfolding subagent_preflight permission_decision
subagent_preflight-ignores_grants st granted root fresh now client = ground arith
