-- ===== src/Agentops/Bash/Tests.antt =====
-- The theorems on the gate at small stores.
use codebridge.Base.{String, true, ◌≡◌, ◌≢◌, ◌⊎◌, refl, Option, none, some, [], ◌∷◌, arith, str_ne}
use codebridge.Base.Map.{lookup}
use codebridge.Base.Text.{codes, is_space, trim_left, trim_right, trim_space, text_eq}
use codebridge.Agentops.Permissions.{
  PermissionRequest, PermissionStore, allow, ask, decision_loop, permission_decision,
  permission_grant,
}
use codebridge.Agentops.Bash.{runs, permission_needed, granted_for, consume_grant_once, run_bash}
use codebridge.Agentops.Bash.Gate.{IsGranted, run_bash-runs}
use codebridge.Agentops.Bash.Single.{permission_grant-once_runs_once}

abbrev request : PermissionRequest
request = record {
  id = "req_1";
  tool = "agent";
  command = codes "ls";
  workspace = "";
  created_at = 0;
  expires_at = 9;
}

abbrev parked_ls : PermissionStore
parked_ls = record { rules = []; pending = ("req_1", request) ∷ []; granted = [] }

abbrev granted_ls : PermissionStore
granted_ls = record parked_ls { granted = ("req_1", true) ∷ [] }

abbrev dir : Option String
dir = some "/w"

ls_runs : (run_bash granted_ls dir "req_2" 1 (codes " ls")).1 ≡ runs "/w" (codes "ls")
unfolding run_bash permission_decision decision_loop consume_grant_once granted_for lookup text_eq
    trim_space trim_left trim_right is_space
ls_runs = refl

run_bash-runs_example :
    (dir ≡ some "/w")
    × (codes "ls" ≡ trim_space (codes " ls"))
    × (codes "ls" ≢ [])
    × (((permission_decision granted_ls "bash" (codes "ls")).0 ≡ allow)
        ⊎ (((permission_decision granted_ls "bash" (codes "ls")).0 ≡ ask)
            × IsGranted granted_ls.granted granted_ls.pending (codes "ls")))
run_bash-runs_example =
    run_bash-runs granted_ls dir "req_2" 1 (codes " ls") "/w" (codes "ls") ls_runs

ls_asked :
    (lookup "req_1" parked_ls.pending ≡ some request)
    × (trim_space (codes "ls") ≡ codes "ls")
    × ((permission_decision parked_ls "bash" (codes "ls")).0 ≡ ask)
unfolding lookup trim_space trim_left trim_right is_space permission_decision decision_loop
ls_asked = (refl, refl, refl)

not_empty_id : request.id ≢ ""
not_empty_id = str_ne refl

not_empty_command : codes "ls" ≢ []
not_empty_command e = ground arith

permission_grant-once_runs_once_example :
    let st1 = (permission_grant parked_ls "req_1" (codes "once") 1).0 in
    let first = run_bash st1 (some "/w") "req_2" 1 (codes "ls") in
    let second = run_bash first.0 (some "/w") "req_2" 1 (codes "ls") in
    (first.1 ≡ runs "/w" (codes "ls"))
    × (lookup "req_1" first.0.pending ≡ none)
    × (first.0.granted ≡ [])
    × ((other : String) × (second.1 ≡ permission_needed other))
permission_grant-once_runs_once_example =
    permission_grant-once_runs_once parked_ls "req_1" "/w" "req_2" request 1 not_empty_id refl
      ls_asked.0 refl ls_asked.1 not_empty_command ls_asked.2
