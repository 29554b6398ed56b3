-- ===== src/Manager/Accounts.antt =====
-- internal/manager/accounts.go: the account that an OAuth subject acts for.
use codebridge.Base.{
  false, ◌≡◌, ◌≢◌, refl, Option, none, some, List, [], ◌∷◌, arith, Bool-cases, inl, inr,
  if◌then◌else◌,
}
use codebridge.Base.Text.{Text, codes, is_empty, text_eq, trim_space}

-- The map from subjects to accounts, or a nil resolver.
unfoldable pub mapped : List (Text × Text) → Text → Text
mapped [] subject = []
mapped ((s, a) ∷ m) subject = if text_eq s subject then a else mapped m subject

abbrev resolved : Option (List (Text × Text)) → Text → Text
resolved none subject = subject
resolved (some m) subject =
    let account = trim_space (mapped m subject) in if is_empty account then subject else account

unfoldable pub for_subject : Option (List (Text × Text)) → Text → Text
unfolding mapped
for_subject resolver subject =
    let s = trim_space subject in if is_empty s then codes "default" else resolved resolver s

-- `accountFor`: a request without token information has no subject.
unfoldable pub account_for : Option (List (Text × Text)) → Option Text → Text
account_for resolver none = for_subject resolver []
account_for resolver (some user) = for_subject resolver user

-- A subject, trimmed and not empty, that the operator maps to nothing acts for the account of its
-- own name, whatever that name is.
pub for_subject-unmapped :
    (m : List (Text × Text)) (subject : Text)
    → is_empty (trim_space subject) ≡ false
    → trim_space (mapped m (trim_space subject)) ≡ []
    → for_subject (some m) subject ≡ trim_space subject
unfolding for_subject
for_subject-unmapped m subject h n = rw (h, n) refl

not_empty : (t : Text) → is_empty t ≡ false → t ≢ []
not_empty [] h e = ground arith
not_empty (c ∷ t) h e = cc

resolved-named :
    (resolver : Option (List (Text × Text))) (s : Text)
    → is_empty s ≡ false
    → resolved resolver s ≢ []
resolved-named none s h = not_empty s h
resolved-named (some m) s h = elim (Bool-cases (is_empty (trim_space (mapped m s)))) [
  | inl e ↦ rw e (not_empty s h)
  | inr e ↦ rw e (not_empty (trim_space (mapped m s)) e)
]

for_subject-named :
    (resolver : Option (List (Text × Text))) (subject : Text) → for_subject resolver subject ≢ []
unfolding for_subject
for_subject-named resolver subject = elim (Bool-cases (is_empty (trim_space subject))) [
  | inl e ↦ rw e (not_empty (codes "default") refl)
  | inr e ↦ rw e (resolved-named resolver (trim_space subject) e)
]

-- Every request, with or without a subject, acts for an account that is not empty.
pub account_for-named :
    (resolver : Option (List (Text × Text))) (user : Option Text) → account_for resolver user ≢ []
unfolding account_for
account_for-named resolver none = for_subject-named resolver []
account_for-named resolver (some user) = for_subject-named resolver user
