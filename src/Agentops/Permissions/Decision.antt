-- ===== src/Agentops/Permissions/Decision.antt =====
-- How the rules decide a command.
use codebridge.Base.{
  String, Bool, true, false, ◌&&◌, ◌≡◌, ◌≢◌, refl, List, [], ◌∷◌, ◌++◌, arith, any, if◌then◌else◌,
}
use codebridge.Base.Text.{Text}
use codebridge.Agentops.Permissions.{
  PermissionRule, PermissionStore, Effect, ask, allow, deny, applies, first_word, decision_loop,
  rule_denies, permission_decision,
}

abbrev pub denies : String → Text → Text → PermissionRule → Bool
denies tool command first rule = applies rule tool command first && rule_denies rule

abbrev pub matches : String → Text → Text → PermissionRule → Bool
matches tool command first rule = applies rule tool command first

decision_loop-effect :
    (tool : String) (command first : Text) (rules : List PermissionRule) (e : Effect) (p : Text)
    → e ≢ deny
    → (decision_loop tool command first rules e p).0 ≡ (
        if any (denies tool command first) rules
        then deny
        else (if any (matches tool command first) rules then allow else e))
unfolding decision_loop
decision_loop-effect tool command first [] e p h = refl
decision_loop-effect tool command first (rule ∷ rules) e p h = ground (
  arith,
  decision_loop-effect tool command first rules e p h,
  decision_loop-effect tool command first rules allow rule.pattern (λ q. cc),
)

-- A rule that denies wins wherever it stands; else any rule that applies allows; a command that no
-- rule matches is asked about. A rule applies when its tool is the call's or empty and its pattern
-- covers the command.
pub permission_decision-effect :
    (st : PermissionStore) (tool : String) (command : Text)
    → (permission_decision st tool command).0 ≡ (
        if any (denies tool command (first_word command)) st.rules
        then deny
        else (if any (matches tool command (first_word command)) st.rules then allow else ask))
unfolding permission_decision
permission_decision-effect st tool command =
    decision_loop-effect tool command (first_word command) st.rules ask [] (λ q. cc)

decision_loop-last :
    (tool : String) (command first : Text) (rules : List PermissionRule) (last : PermissionRule)
    (e : Effect) (p : Text)
    → e ≢ deny
    → any (denies tool command first) rules ≡ false
    → matches tool command first last ≡ true
    → rule_denies last ≡ false
    → decision_loop tool command first (rules ++ (last ∷ [])) e p ≡ (allow, last.pattern)
unfolding decision_loop
decision_loop-last tool command first [] last e p h d m l = ground arith
decision_loop-last tool command first (rule ∷ rules) last e p h d m l = ground (
  arith,
  decision_loop-last tool command first rules last e p h,
  decision_loop-last tool command first rules last allow rule.pattern (λ q. cc),
)

-- Among rules that allow, the last one that applies gives the pattern reported.
pub permission_decision-last :
    (st : PermissionStore) (rules : List PermissionRule) (last : PermissionRule) (tool : String)
    (command : Text)
    → st.rules ≡ rules ++ (last ∷ [])
    → any (denies tool command (first_word command)) rules ≡ false
    → matches tool command (first_word command) last ≡ true
    → rule_denies last ≡ false
    → permission_decision st tool command ≡ (allow, last.pattern)
unfolding permission_decision
permission_decision-last st rules last tool command e d m l =
    rw e (decision_loop-last tool command (first_word command) rules last ask [] (λ q. cc) d m l)
