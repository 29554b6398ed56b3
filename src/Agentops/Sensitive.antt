-- ===== src/Agentops/Sensitive.antt =====
-- internal/agentops/sensitive.go: the paths that local policy keeps from callers. Letters are lowered
-- in ASCII.
pub mod Allowed
use codebridge.Base.{
  ℕ, Bool, false, ◌&&◌, ◌||◌, not, String, List, [], ◌∷◌, any, nat_eq, if◌then◌else◌,
}
use codebridge.Base.Text.{Text, codes, text_eq, to_lower, has_prefix}
use codebridge.Agentops.Paths.{
  FilePath, Host, Result, ok, err, ◌>>=◌, sensitive_path, sensitive_root, split_on, join,
  logical_path, rel_to, resolve_under_root,
}

abbrev sensitive_dir_names : List String
sensitive_dir_names =
    ".git" ∷ ".ssh" ∷ ".gnupg" ∷ ".aws" ∷ ".azure" ∷ ".kube" ∷ ".docker" ∷ ".secrets" ∷ []

abbrev sensitive_base_names : List String
sensitive_base_names =
    ".envrc" ∷ ".npmrc" ∷ ".pypirc" ∷ ".netrc" ∷ ".git-credentials" ∷ "id_rsa" ∷ "id_dsa"
    ∷ "id_ecdsa" ∷ "id_ed25519" ∷ []

abbrev safe_env_examples : List String
safe_env_examples = ".env.example" ∷ ".env.sample" ∷ ".env.template" ∷ ".env.dist" ∷ []

abbrev key_extensions : List String
key_extensions = ".pem" ∷ ".key" ∷ ".p12" ∷ ".pfx" ∷ ".jks" ∷ ".keystore" ∷ []

abbrev one_of : Text → List String → Bool
one_of t names = any (λ n. text_eq t (codes n)) names

-- `strings.HasSuffix` and `strings.Contains`
unfoldable pub has_suffix : Text → Text → Bool
unfolding text_eq
has_suffix [] suffix = text_eq [] suffix
has_suffix (c ∷ s) suffix = text_eq (c ∷ s) suffix || has_suffix s suffix

unfoldable pub contains : Text → Text → Bool
unfolding has_prefix
contains [] part = has_prefix [] part
contains (c ∷ s) part = has_prefix (c ∷ s) part || contains s part

abbrev last_dot : ℕ → Text → Text → Text
last_dot c s [] = if nat_eq c b'.' then c ∷ s else []
last_dot c s (d ∷ later) = d ∷ later

-- `filepath.Ext` of a base name
unfoldable pub ext : Text → Text
ext [] = []
ext (c ∷ s) = last_dot c s (ext s)

unfoldable pub is_safe_env_example : Text → Bool
unfolding text_eq
is_safe_env_example base = one_of base safe_env_examples

unfoldable pub last_of : List Text → Text
last_of [] = []
last_of (p ∷ []) = p
last_of (p ∷ q ∷ parts) = last_of (q ∷ parts)

abbrev is_sensitive_base : Text → Bool
is_sensitive_base base =
    one_of base sensitive_base_names
    || text_eq base (codes ".env")
    || (has_prefix base (codes ".env.") && not (is_safe_env_example base))
    || has_suffix base (codes ".tfstate")
    || contains base (codes ".tfstate.")
    || has_suffix base (codes ".tfvars")
    || has_suffix base (codes ".tfvars.json")
    || one_of (to_lower (ext base)) key_extensions

unfoldable pub is_sensitive_path : Text → Bool
unfolding text_eq has_prefix has_suffix contains ext is_safe_env_example last_of to_lower split_on
    logical_path
is_sensitive_path rel =
    let path = logical_path rel in
    let parts = split_on b'/' (to_lower path) in
    if text_eq path (codes ".")
    then false
    else any (λ part. one_of part sensitive_dir_names) parts || is_sensitive_base (last_of parts)

-- `filepath.Base` of a physical path
abbrev pub base_of : FilePath → Text
base_of [] = codes "/"
base_of (p ∷ parts) = last_of (p ∷ parts)

abbrev pub root_allowed : Bool → FilePath → Result FilePath
root_allowed allow root =
    if not allow && is_sensitive_path (base_of root) then err sensitive_root else ok root

unfoldable pub resolve_workspace_root : Host → Bool → FilePath → Result FilePath
unfolding is_sensitive_path resolve_under_root
resolve_workspace_root host allow root =
    resolve_under_root host root (codes ".") >>= root_allowed allow

abbrev pub rel_text : FilePath → Text
rel_text [] = codes "."
rel_text (p ∷ parts) = join (p ∷ parts)

abbrev pub target_allowed : Bool → FilePath → FilePath → Result FilePath
target_allowed allow root_real target =
    if allow
    then ok target
    else if is_sensitive_path (rel_text (rel_to root_real target))
    then err sensitive_path
    else ok target

-- `allow` is the service's AllowSensitiveFiles.
unfoldable pub resolve_allowed_path : Host → Bool → FilePath → Text → Result FilePath
unfolding is_sensitive_path resolve_workspace_root resolve_under_root
resolve_allowed_path host allow root rel =
    if not allow && is_sensitive_path rel
    then err sensitive_path
    else resolve_workspace_root host allow root >>= λ root_real.
        resolve_under_root host root rel >>= target_allowed allow root_real
