-- ===== src/Agentops/Permissions/Tests.antt =====
-- The theorems on permissions at small stores.
use codebridge.Base.{true, false, ◌≡◌, ◌≢◌, refl, some, List, [], ◌∷◌, any, str_ne}
use codebridge.Base.Map.{lookup}
use codebridge.Base.Text.{
  codes, text_eq, trim_space, trim_left, trim_right, is_space, has_prefix, trim_suffix, fields,
  fields_from,
}
use codebridge.Agentops.Permissions.{
  PermissionRule, PermissionRequest, PermissionStore, rule_matches, other_tool, rule_denies,
  first_word,
}
use codebridge.Agentops.Permissions.Decision.{denies, matches}

abbrev git_rule : PermissionRule
git_rule = record { effect = "allow"; tool = "bash"; pattern = codes "git *"; reason = [] }

abbrev any_rule : PermissionRule
any_rule = record { effect = "allow"; tool = ""; pattern = codes "*"; reason = [] }

abbrev push_rule : PermissionRule
push_rule = record { effect = "deny"; tool = "bash"; pattern = codes "git push*"; reason = [] }

abbrev request : PermissionRequest
request = record {
  id = "req_1";
  tool = "bash";
  command = codes "make all";
  workspace = "";
  created_at = 0;
  expires_at = 9;
}

abbrev small_store : List PermissionRule → PermissionStore
small_store rules = record { rules = rules; pending = ("req_1", request) ∷ []; granted = [] }

git_last :
    (any (denies "bash" (codes "git log") (first_word (codes "git log"))) (any_rule ∷ []) ≡ false)
    × (matches "bash" (codes "git log") (first_word (codes "git log")) git_rule ≡ true)
    × (rule_denies git_rule ≡ false)
unfolding other_tool rule_matches rule_denies first_word fields fields_from is_space trim_space
    trim_left trim_right trim_suffix text_eq has_prefix
git_last = (refl, refl, refl)

make_words :
    (lookup "req_1" (small_store []).pending ≡ some request)
    × (fields (codes "make all") ≡ codes "make" ∷ codes "all" ∷ [])
    × (trim_space (codes "make") ≡ codes "make")
    × (trim_suffix (codes "make") b'*' ≡ codes "make")
unfolding lookup fields fields_from is_space trim_space trim_left trim_right trim_suffix
make_words = (refl, refl, refl, refl)

not_empty_id : request.id ≢ ""
not_empty_id = str_ne refl
