-- ===== src/Agentops/Paths.antt =====
-- internal/agentops/security.go: which files a relative path may name. A path is
-- taken apart as on Unix. A physical path is the list of its components below `/`, without `.` and
-- `..`. Letters are lowered in ASCII.
pub mod Contained
use codebridge.Base.{
  ℕ, zero, suc, Bool, true, false, ◌&&◌, ◌||◌, not, Option, none, some, List, [], ◌∷◌, ◌++◌, nat_eq,
  if◌then◌else◌,
}
use codebridge.Base.Text.{Text, codes, is_empty, text_eq, trim_space, to_lower, has_prefix}

-- `strings.Split(s, string(c))` for one code point.
abbrev before_rest : ℕ → List Text → List Text
before_rest c [] = (c ∷ []) ∷ []
before_rest c (part ∷ parts) = (c ∷ part) ∷ parts

unfoldable pub split_on : ℕ → Text → List Text
split_on c [] = [] ∷ []
split_on c (a ∷ s) = let rest = split_on c s in if nat_eq a c then [] ∷ rest else before_rest a rest

-- `strings.Join(parts, "/")`
unfoldable pub join : List Text → Text
join [] = []
join (p ∷ []) = p
join (p ∷ q ∷ parts) = p ++ (b'/' ∷ join (q ∷ parts))

abbrev pub dot_dot : Text
dot_dot = b'.' ∷ b'.' ∷ []

unfoldable pub is_abs : Text → Bool
is_abs [] = false
is_abs (c ∷ s) = nat_eq c b'/'

-- A `..` takes the last component away, or stays in front; a rooted path has nothing above it.
abbrev pub go_up : Bool → List Text → List Text
go_up rooted [] = if rooted then [] else dot_dot ∷ []
go_up rooted (top ∷ out) = if text_eq top dot_dot then dot_dot ∷ top ∷ out else out

-- The components seen so far, the last one first.
unfoldable pub cleaned : Bool → List Text → List Text → List Text
unfolding text_eq
cleaned rooted out [] = out
cleaned rooted out (part ∷ parts) =
    cleaned rooted
      (if is_empty part || text_eq part (b'.' ∷ [])
        then out
        else if text_eq part dot_dot
        then go_up rooted out
        else part ∷ out)
      parts

unfoldable pub reversed : {A : Type 0} → List A → List A → List A
reversed [] ys = ys
reversed (x ∷ xs) ys = reversed xs (x ∷ ys)

-- The components of `filepath.Clean(path)`.
unfoldable pub components : Text → List Text
unfolding split_on is_abs cleaned reversed
components path = reversed (cleaned (is_abs path) [] (split_on b'/' path)) []

abbrev shown : Bool → List Text → Text
shown true parts = b'/' ∷ join parts
shown false [] = b'.' ∷ []
shown false (p ∷ parts) = join (p ∷ parts)

-- `filepath.Clean`
unfoldable pub clean : Text → Text
unfolding components join is_abs
clean path = shown (is_abs path) (components path)

unfoldable pub logical_path : Text → Text
unfolding clean
logical_path rel = let r = trim_space rel in if is_empty r then b'.' ∷ [] else clean r

abbrev pub FilePath : Type 0
FilePath = List Text

-- What the file system answers: `os.Lstat` finds the path, and `filepath.EvalSymlinks`.
pub record Host : Type 0 where
  pub present : FilePath → Bool
  pub real : FilePath → Option FilePath

pub data Error : Type 0 where
  root_unavailable absolute_path path_escapes unresolved : Error
  sensitive_path sensitive_root : Error

pub data Result {ℓ} (A : Type ℓ) : Type ℓ where
  ok : A → Result A
  err : Error → Result A

infixl 5 ◌>>=◌
abbrev pub ◌>>=◌ {ℓ κ} : {A : Type ℓ} {B : Type κ} → Result A → (A → Result B) → Result B
ok a >>= f = f a
err e >>= f = err e

abbrev ups : FilePath → FilePath → FilePath
ups [] target = target
ups (b ∷ base) target = dot_dot ∷ ups base target

-- `filepath.Rel(base, target)`, for physical paths.
unfoldable pub rel_to : FilePath → FilePath → FilePath
unfolding text_eq
rel_to [] target = target
rel_to (b ∷ base) [] = ups (b ∷ base) []
rel_to (b ∷ base) (t ∷ target) =
    let below = rel_to base target in if text_eq b t then below else ups (b ∷ base) (t ∷ target)

abbrev pub starts_up : FilePath → Bool
starts_up [] = false
starts_up (p ∷ parts) = text_eq p dot_dot

unfoldable pub contained : FilePath → FilePath → Bool
unfolding rel_to text_eq
contained root target = not (starts_up (rel_to root target))

abbrev pub found : Option FilePath → Error → Result FilePath
found none e = err e
found (some p) e = ok p

abbrev candidate : Host → FilePath → Result FilePath
candidate host joined =
    if host.present joined then found (host.real joined) unresolved else ok joined

-- The test is made twice: the second root is the same as the first.
abbrev checked : FilePath → FilePath → Result FilePath
checked root target =
    if not (contained root target)
    then (if not (contained root target) then err path_escapes else ok target)
    else ok target

abbrev escapes : Text → Bool
escapes path = text_eq path dot_dot || has_prefix path (b'.' ∷ b'.' ∷ b'/' ∷ [])

abbrev pub under : Host → FilePath → Text → Result FilePath
under host root_real rel =
    if is_empty rel || text_eq rel (b'.' ∷ [])
    then ok root_real
    else if is_abs rel
    then err absolute_path
    else if escapes (clean rel)
    then err path_escapes
    else candidate host (root_real ++ components rel) >>= checked root_real

unfoldable pub resolve_under_root : Host → FilePath → Text → Result FilePath
unfolding is_abs clean components contained
resolve_under_root host root rel =
    found (host.real root) root_unavailable >>= λ root_real. under host root_real rel
