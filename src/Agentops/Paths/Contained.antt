-- ===== src/Agentops/Paths/Contained.antt =====
-- A resolved path lies under the workspace root.
use codebridge.Base.{
  ◌≡◌, ◌≢◌, refl, sym, true, false, ◌||◌, Option, none, some, [], ◌∷◌, ◌++◌, arith, if_lem, All,
  Bool-cases, ◌⊎◌, inl, inr,
}
use mathlib.Core.Path.{subst}
use mathlib.Core.List.{append-nil}
use codebridge.Base.Text.{Text, is_empty, text_eq, text_eq_iff, text_eq_self, has_prefix}
use codebridge.Agentops.Paths.{
  FilePath, Host, Result, ok, err, ◌>>=◌, dot_dot, is_abs, go_up, cleaned, reversed, components,
  clean, join, split_on, rel_to, starts_up, contained, found, candidate, checked, escapes, under,
  resolve_under_root, root_unavailable,
}

-- `target` is `root` or below it.
abbrev pub LiesUnder : FilePath → FilePath → Type 0
LiesUnder root target = (rest : FilePath) × (target ≡ root ++ rest)

rel_to-LiesUnder :
    (root target : FilePath) → starts_up (rel_to root target) ≡ false → LiesUnder root target
unfolding rel_to
rel_to-LiesUnder [] target h = (target, refl)
rel_to-LiesUnder (b ∷ base) [] h = absurd (ground (arith, text_eq_iff dot_dot dot_dot))
rel_to-LiesUnder (b ∷ base) (t ∷ target) h = elim (Bool-cases (text_eq b t)) [
  | inl same ↦
      let (rest, e) = rel_to-LiesUnder base target (rw same at h) in
      (rest, rw ((text_eq_iff b t).0 same, e) refl)
  | inr other ↦ absurd (ground (arith, text_eq_iff dot_dot dot_dot))
]

-- A result that lies under `root`, if there is one.
abbrev pub IsInside : FilePath → Result FilePath → Type 0
IsInside root (ok target) = LiesUnder root target
IsInside root (err e) = Unit {0}

checked-IsInside : (root target : FilePath) → IsInside root (checked root target)
unfolding contained
checked-IsInside root target = elim (Bool-cases (starts_up (rel_to root target))) [
  | inl up ↦ rw up tt
  | inr down ↦ rw down (rel_to-LiesUnder root target down)
]

bind-IsInside : (root : FilePath) (r : Result FilePath) → IsInside root (r >>= checked root)
bind-IsInside root (ok p) = checked-IsInside root p
bind-IsInside root (err e) = tt

pub under-IsInside :
    (host : Host) (root : FilePath) (rel : Text) → IsInside root (under host root rel)
under-IsInside host root rel =
    let inside = IsInside root in
    if_lem inside (is_empty rel || text_eq rel (b'.' ∷ [])) _ _ (λ e. ([], sym (append-nil root)))
      (λ e.
        if_lem inside (is_abs rel) _ _ (λ f. tt)
          (λ f.
            if_lem inside (escapes (clean rel)) _ _ (λ g. tt)
              (λ g. bind-IsInside root (candidate host (root ++ components rel)))))

resolved-inside :
    (host : Host) (o : Option FilePath) (rel : Text) (target : FilePath)
    → (found o root_unavailable >>= λ root_real. under host root_real rel) ≡ ok target
    → (root_real : FilePath) × (o ≡ some root_real) × LiesUnder root_real target
resolved-inside host none rel target h = absurd (ground arith)
resolved-inside host (some r) rel target h =
    (r, refl, subst (IsInside r) h (under-IsInside host r rel))

-- A path that resolves lies under the real root, through whatever symbolic links it went.
pub resolve_under_root-LiesUnder :
    (host : Host) (root : FilePath) (rel : Text) (target : FilePath)
    → resolve_under_root host root rel ≡ ok target
    → (root_real : FilePath) × (host.real root ≡ some root_real) × LiesUnder root_real target
unfolding resolve_under_root
resolve_under_root-LiesUnder host root rel target h =
    resolved-inside host (host.real root) rel target h

-- The last component of a list, the first of the path, is `..`.
abbrev Up : FilePath → Type 0
Up [] = ⊥
Up (p ∷ []) = p ≡ dot_dot
Up (p ∷ q ∷ out) = Up (q ∷ out)

abbrev IsPlain : FilePath → Type 0
IsPlain out = All (λ p. p ≢ dot_dot) out

-- The components, the last one first: none is `..`, or one stays in front.
abbrev IsClean : FilePath → Type 0
IsClean out = IsPlain out ⊎ Up out

Up-push : (p : Text) (out : FilePath) → Up out → Up (p ∷ out)
Up-push p [] u = absurd u
Up-push p (q ∷ out) u = u

go_up-IsClean : (out : FilePath) → IsClean out → IsClean (go_up false out)
go_up-IsClean [] c = inr refl
go_up-IsClean (top ∷ out) (inl plain) = elim (Bool-cases (text_eq top dot_dot)) [
  | inl same ↦ absurd (plain.0 ((text_eq_iff top dot_dot).0 same))
  | inr other ↦ rw other (inl plain.1)
]
go_up-IsClean (top ∷ []) (inr u) = rw (u, text_eq_self dot_dot) (inr refl)
go_up-IsClean (top ∷ q ∷ out) (inr u) = elim (Bool-cases (text_eq top dot_dot)) [
  | inl same ↦ rw same (inr u)
  | inr other ↦ rw other (inr u)
]

step-IsClean :
    (part : Text) (out : FilePath)
    → IsClean out
    → text_eq part dot_dot ≡ false
    → IsClean (part ∷ out)
step-IsClean part out (inl plain) h =
    inl ((λ e. ground (arith, (text_eq_iff part dot_dot).1 e)), plain)
step-IsClean part out (inr u) h = inr (Up-push part out u)

cleaned-IsClean : (parts out : FilePath) → IsClean out → IsClean (cleaned false out parts)
unfolding cleaned
cleaned-IsClean [] out c = c
cleaned-IsClean (part ∷ parts) out c = cleaned-IsClean parts _ (
    if_lem IsClean (is_empty part || text_eq part (b'.' ∷ [])) _ _ (λ e. c)
      (λ e.
        if_lem IsClean (text_eq part dot_dot) _ _ (λ f. go_up-IsClean out c)
          (λ f. step-IsClean part out c f)))

reversed-Up : (out ys : FilePath) → Up out → (rest : FilePath) × (reversed out ys ≡ dot_dot ∷ rest)
unfolding reversed
reversed-Up [] ys u = absurd u
reversed-Up (p ∷ []) ys u = (ys, rw u refl)
reversed-Up (p ∷ q ∷ out) ys u = reversed-Up (q ∷ out) (p ∷ ys) u

reversed-IsPlain : (out ys : FilePath) → IsPlain out → IsPlain ys → IsPlain (reversed out ys)
unfolding reversed
reversed-IsPlain [] ys v w = w
reversed-IsPlain (p ∷ out) ys v w = reversed-IsPlain out (p ∷ ys) v.1 (v.0, w)

shown-escapes : (rest : FilePath) → escapes (join (dot_dot ∷ rest)) ≡ true
unfolding join text_eq has_prefix
shown-escapes [] = refl
shown-escapes (r ∷ rest) = refl

clean-up :
    (path : Text) (rest : FilePath)
    → is_abs path ≡ false
    → reversed (cleaned false [] (split_on b'/' path)) [] ≡ dot_dot ∷ rest
    → escapes (clean path) ≡ true
unfolding clean
clean-up path rest relative e = rw (relative, e) (shown-escapes rest)

-- The components of a relative path that does not escape have no `..`.
pub components-IsPlain :
    (path : Text)
    → is_abs path ≡ false
    → escapes (clean path) ≡ false
    → All (λ p. p ≢ dot_dot) (components path)
unfolding components
components-IsPlain path relative inside =
    rw relative (elim (cleaned-IsClean (split_on b'/' path) [] (inl tt)) [
      | inl plain ↦ reversed-IsPlain (cleaned false [] (split_on b'/' path)) [] plain tt
      | inr u ↦
          let (rest, e) = reversed-Up (cleaned false [] (split_on b'/' path)) [] u in
          absurd (ground (arith, clean-up path rest relative e))
    ])
