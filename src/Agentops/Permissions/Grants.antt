-- ===== src/Agentops/Permissions/Grants.antt =====
-- What parking a request and answering it leave behind.
use codebridge.Base.{
  ℕ, String, true, false, not, ◌≡◌, ◌≢◌, refl, ap, ◌∙◌, none, some, List, [], ◌∷◌, ◌++◌, arith, any,
  str_eq, if◌then◌else◌, ◌+◌, eq_iff, Bool-cases, inl, inr,
}
use codebridge.Base.Map.{
  lookup, insert, erase, keep, lookup-insert, lookup-retain, lookup-erase_self,
}
use codebridge.Base.Text.{
  Text, codes, is_empty, text_eq, text_eq_iff, trim_space, trim_suffix, to_lower, fields,
}
use codebridge.Agentops.Permissions.{
  PermissionRequest, PermissionStore, allow, Error, Result, ok, err, denied, expired, park_request,
  permission_request_ttl, permission_grant, grant_found, granted_after, lookup_request,
  permission_rule_for_request, permission_decision, rule_matches, other_tool, first_word,
  rule_denies,
}
use codebridge.Agentops.Permissions.Decision.{denies, matches, permission_decision-last}

abbrev pub parked : String → ℕ → String → Text → String → PermissionRequest
parked id now tool command workspace = record {
  id = id;
  tool = tool;
  command = command;
  workspace = workspace;
  created_at = now;
  expires_at = now + permission_request_ttl;
}

-- Parking a request sets its id to a request that expires five minutes later, drops every request
-- that has expired, and keeps the others; rules and grants stay.
pub park_request-lookup :
    (st : PermissionStore) (id j : String) (now : ℕ) (tool : String) (command : Text)
    (workspace : String)
    → let st' = park_request st id now tool command workspace in
      (lookup j st'.pending ≡ (
        if str_eq id j
        then some (parked id now tool command workspace)
        else keep (λ r. not (expired now r)) (lookup j st.pending)))
      × (st'.rules ≡ st.rules)
      × (st'.granted ≡ st.granted)
unfolding park_request
park_request-lookup st id j now tool command workspace = (
  ground (
    arith,
    lookup-retain (λ r. not (expired now r)) j
        (insert id (parked id now tool command workspace) st.pending),
    lookup-insert id j (parked id now tool command workspace) st.pending,
  ),
  refl,
  refl,
)

failed_keeps :
    (id : String) (word : Text) (p : PermissionStore × Result PermissionRequest) (e : Error)
    → (granted_after id word p).1 ≡ err e
    → ((granted_after id word p).0.rules ≡ p.0.rules)
      × ((granted_after id word p).0.granted ≡ p.0.granted)
unfolding grant_found
failed_keeps id word (st, err e') e h = (refl, refl)
failed_keeps id word (st, ok req) e h = ground arith

looked_up-keeps :
    (st : PermissionStore) (id : String) (now : ℕ)
    → ((lookup_request st id now).0.rules ≡ st.rules)
      × ((lookup_request st id now).0.granted ≡ st.granted)
unfolding lookup_request
looked_up-keeps st id now = ground arith

-- An answer that fails (no id, an unknown or expired request, an unknown decision) changes neither
-- the rules nor the grants.
pub permission_grant-err :
    (st : PermissionStore) (id : String) (decision : Text) (now : ℕ) (e : Error)
    → (permission_grant st id decision now).1 ≡ err e
    → ((permission_grant st id decision now).0.rules ≡ st.rules)
      × ((permission_grant st id decision now).0.granted ≡ st.granted)
unfolding permission_grant
permission_grant-err st id decision now e h = ground (
  arith,
  looked_up-keeps st id now,
  failed_keeps id (trim_space (to_lower decision)) (lookup_request st id now) e,
)

deny_clears :
    (id : String) (word : Text) (p : PermissionStore × Result PermissionRequest)
    → (granted_after id word p).1 ≡ ok denied
    → (lookup id (granted_after id word p).0.pending ≡ none)
      × (lookup id (granted_after id word p).0.granted ≡ none)
      × ((granted_after id word p).0.rules ≡ p.0.rules)
unfolding grant_found
deny_clears id word (st, err e) h = ground arith
deny_clears id word (st, ok req) h =
    ground (arith, lookup-erase_self id st.pending, lookup-erase_self id st.granted)

-- `deny` withdraws: neither the request nor a grant for it is left, and the rules stay.
pub permission_grant-deny :
    (st : PermissionStore) (id : String) (decision : Text) (now : ℕ)
    → (permission_grant st id decision now).1 ≡ ok denied
    → let st' = (permission_grant st id decision now).0 in
      (lookup id st'.pending ≡ none) × (lookup id st'.granted ≡ none) × (st'.rules ≡ st.rules)
unfolding permission_grant
permission_grant-deny st id decision now h = ground (
  arith,
  looked_up-keeps st id now,
  deny_clears id (trim_space (to_lower decision)) (lookup_request st id now),
)

permission_grant-always_store :
    (st : PermissionStore) (id : String) (req : PermissionRequest) (now : ℕ)
    → id ≢ ""
    → lookup id st.pending ≡ some req
    → expired now req ≡ false
    → (permission_grant st id (codes "always") now).0 ≡ record st {
      rules = st.rules ++ (permission_rule_for_request req ∷ []);
      pending = erase id st.pending;
    }
unfolding permission_grant text_eq trim_space to_lower
permission_grant-always_store st id req now i p e = elim (Bool-cases (str_eq id "")) [
  | inl same ↦ absurd (i ((eq_iff id "").0 same))
  | inr other ↦ rw (other, p, e, permission_grant) refl
]

rule_matches-word :
    (w command : Text)
    → trim_space w ≡ w
    → is_empty w ≡ false
    → trim_suffix w b'*' ≡ w
    → rule_matches w command w ≡ true
unfolding rule_matches
rule_matches-word w command t n s = rw (t, n, s, (text_eq_iff w w).1 refl) (ground arith)

rule_for-matches :
    (req : PermissionRequest) (w : Text) (ws : List Text)
    → fields req.command ≡ w ∷ ws
    → rule_matches w req.command w ≡ true
    → matches req.tool req.command w (permission_rule_for_request req) ≡ true
unfolding permission_rule_for_request other_tool
rule_for-matches req w ws f m = rw (f, m) (ground (arith, eq_iff req.tool req.tool))

rule_for-allows : (req : PermissionRequest) → rule_denies (permission_rule_for_request req) ≡ false
unfolding permission_rule_for_request rule_denies
rule_for-allows req = refl

rule_for-pattern :
    (req : PermissionRequest) (w : Text) (ws : List Text)
    → fields req.command ≡ w ∷ ws
    → (permission_rule_for_request req).pattern ≡ w
unfolding permission_rule_for_request
rule_for-pattern req w ws f = rw f refl

first_word-fields : (c w : Text) (ws : List Text) → fields c ≡ w ∷ ws → first_word c ≡ w
unfolding first_word
first_word-fields c w ws f = rw f refl

-- `always` on a request whose command has the first word `w` (not empty, no `*` at its end) adds a
-- rule by which that command is allowed from then on, unless a rule denies it.
pub permission_grant-always :
    (st : PermissionStore) (id : String) (req : PermissionRequest) (now : ℕ) (w : Text)
    (ws : List Text)
    → id ≢ ""
    → lookup id st.pending ≡ some req
    → expired now req ≡ false
    → fields req.command ≡ w ∷ ws
    → trim_space w ≡ w
    → is_empty w ≡ false
    → trim_suffix w b'*' ≡ w
    → any (denies req.tool req.command w) st.rules ≡ false
    → let st' = (permission_grant st id (codes "always") now).0 in
      (permission_decision st' req.tool req.command ≡ (allow, w))
      × (lookup id st'.pending ≡ none)
      × (st'.granted ≡ st.granted)
permission_grant-always st id req now w ws i p e f t n s d =
    let rule = permission_rule_for_request req in
    let st' : PermissionStore = record st {
      rules = st.rules ++ (rule ∷ []);
      pending = erase id st.pending;
    } in
    let word : first_word req.command ≡ w = first_word-fields req.command w ws f in
    let m : matches req.tool req.command (first_word req.command) rule ≡ true =
      rw word (rule_for-matches req w ws f (rule_matches-word w req.command t n s)) in
    rw (permission_grant-always_store st id req now i p e) (
      permission_decision-last st' st.rules rule req.tool req.command refl (rw word d) m
            (rule_for-allows req)
          ∙ ap (λ v. (allow, v)) (rule_for-pattern req w ws f),
      lookup-erase_self id st.pending,
      refl,
    )
