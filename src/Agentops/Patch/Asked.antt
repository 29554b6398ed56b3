-- ===== src/Agentops/Patch/Asked.antt =====
-- What the plans of a patch say of its edits.
use codebridge.Base.{
  ℕ, ◌+◌, ◌≡◌, refl, sym, ap, ◌∙◌, Bool, true, false, Option, none, some, List, [], ◌∷◌, map, arith,
  nat_eq, ltb, if_lem, length, any, All, Option-cases, inl, inr,
}
use mathlib.Core.Path.{subst}
use codebridge.Base.Text.{Text, text_eq, text_eq_iff}
use codebridge.Agentops.Edits.{Bytes, FileEdit, Action, create, delete, replace, action_of, count}
use codebridge.Agentops.Edits.Replaced.{Replaced, replace_first-Replaced}
use codebridge.Agentops.Patch.{
  Disk, PlannedEdit, Error, duplicate, Result, ok, err, check, first_error, edit_checks, edit_error,
  ensure_parent_dir, plan_create, plan_delete, plan_replace, plan_action, plan_checked, plan_edit,
  plan_edits, prepended, followed, created, rel_of, is_there,
}
use codebridge.Agentops.Patch.Planned.{plan_edit-files}

abbrev pub among : Text → List Text → Bool
among q xs = any (λ x. text_eq x q) xs

abbrev pub rels : List PlannedEdit → List Text
rels ps = map (λ p. p.rel) ps

abbrev pub IsDistinct : List PlannedEdit → Type 0
IsDistinct [] = Unit {0}
IsDistinct (p ∷ ps) = (among p.rel (rels ps) ≡ false) × IsDistinct ps

-- From `before` to `after` the file changed as the edit asks.
abbrev pub Edited : FileEdit → Option Bytes → Option Bytes → Option Action → Type 0
Edited e before after none = ⊥
Edited e before after (some create) = (before ≡ none) × (after ≡ some e.new_text)
Edited e before after (some delete) = (before ≡ some e.old_text) × (after ≡ none)
Edited e before after (some replace) =
    (s : Bytes) × (s' : Bytes) × (before ≡ some s)
    × (after ≡ some s')
    × Replaced e.old_text e.new_text s s'

abbrev pub asked_of : FileEdit → Option Action
asked_of e = action_of e.old_text e.new_text

-- The plan is for this edit, on these files.
abbrev pub Plans : (Text → Option Bytes) → FileEdit → PlannedEdit → Type 0
Plans files e p = (p.rel ≡ rel_of e) × Edited e (files p.rel) p.new_content (asked_of e)

ok-inj : {A : Type 0} {x y : A} → ok x ≡ ok y → x ≡ y
ok-inj h = ground arith

absent_lem : (disk : Disk) (rel : Text) → is_there disk rel ≡ false → disk.files rel ≡ none
absent_lem disk rel h = elim (Option-cases (disk.files rel)) [
  | inl e ↦ e
  | inr (content, e) ↦ absurd (ground (arith, e, h))
]

abbrev Good : (Text → Option Bytes) → FileEdit → Text → Option Action → Result PlannedEdit → Type 0
Good files e rel a r =
    (p : PlannedEdit) → r ≡ ok p → (p.rel ≡ rel) × Edited e (files p.rel) p.new_content a

-- A plan for the path, with what it finds and what it leaves there.
good :
    (files : Text → Option Bytes) (e : FileEdit) (rel : Text) (a : Option Action)
    (plan : PlannedEdit)
    → plan.rel ≡ rel
    → Edited e (files rel) plan.new_content a
    → Good files e rel a (ok plan)
good files e rel a plan named edited p h =
    subst (λ x. (x.rel ≡ rel) × Edited e (files x.rel) x.new_content a) (ok-inj h)
      (named, subst (λ x. Edited e (files x) plan.new_content a) (sym named) edited)

bad :
    (files : Text → Option Bytes) (e : FileEdit) (rel : Text) (a : Option Action) (f : Error)
    → Good files e rel a (err f)
bad files e rel a f p h = absurd (ground arith)

plan_delete-Good :
    (files : Text → Option Bytes) (e : FileEdit) (rel : Text) (o : Option Bytes)
    → files rel ≡ o
    → Good files e rel (some delete) (plan_delete e rel o)
plan_delete-Good files e rel none at = bad files e rel (some delete) _
plan_delete-Good files e rel (some current) at =
    if_lem (Good files e rel (some delete)) (text_eq current e.old_text) _ _
      (λ same.
        good files e rel (some delete) _ refl
          (at ∙ ap some ((text_eq_iff current e.old_text).0 same), refl))
      (λ other. bad files e rel (some delete) _)

plan_replace-Good :
    (files : Text → Option Bytes) (e : FileEdit) (rel : Text) (o : Option Bytes)
    → files rel ≡ o
    → Good files e rel (some replace) (plan_replace e rel o)
plan_replace-Good files e rel none at = bad files e rel (some replace) _
plan_replace-Good files e rel (some current) at =
    let n = count current e.old_text in
    if_lem (Good files e rel (some replace)) (nat_eq n 0) _ _
      (λ none_there. bad files e rel (some replace) _)
      (λ some_there.
        if_lem (Good files e rel (some replace)) (ltb 1 n) _ _
          (λ many. bad files e rel (some replace) _)
          (λ one. good files e rel (some replace) _ refl (
            current,
            _,
            at,
            refl,
            replace_first-Replaced e.old_text e.new_text current (ground arith),
          )))

plan_create-Good :
    (made : Text → Bool) (disk : Disk) (e : FileEdit) (rel : Text)
    → Good disk.files e rel (some create) (plan_create made disk e rel).1
plan_create-Good made disk e rel =
    if_lem (λ (x : Disk × Result PlannedEdit). Good disk.files e rel (some create) x.1)
      (is_there disk rel) _ _ (λ there. bad disk.files e rel (some create) _)
      (λ free.
        parent-Good disk.files e rel (ensure_parent_dir made disk rel).1 (absent_lem disk rel free))
  where
    parent-Good :
        (files : Text → Option Bytes) (e : FileEdit) (rel : Text) (o : Option Error)
        → files rel ≡ none
        → Good files e rel (some create) (created e rel o)
    parent-Good files e rel none free = good files e rel (some create) _ refl (free, refl)
    parent-Good files e rel (some f) free = bad files e rel (some create) f

plan_action-Good :
    (made : Text → Bool) (disk : Disk) (e : FileEdit) (rel : Text) (a : Option Action)
    → Good disk.files e rel a (plan_action made disk e rel a).1
plan_action-Good made disk e rel none = bad disk.files e rel none _
plan_action-Good made disk e rel (some create) = plan_create-Good made disk e rel
plan_action-Good made disk e rel (some delete) =
    plan_delete-Good disk.files e rel (disk.files rel) refl
plan_action-Good made disk e rel (some replace) =
    plan_replace-Good disk.files e rel (disk.files rel) refl

-- The plan of an edit, with what the checks made sure of.
abbrev Planned : (Text → Option Bytes) → List Text → FileEdit → Result PlannedEdit → Type 0
Planned files seen e r =
    (p : PlannedEdit) → r ≡ ok p → Plans files e p × (any (text_eq p.rel) seen ≡ false)

check-none : (b : Bool) (e : Error) → check b e ≡ none → b ≡ false
check-none true e h = absurd (ground arith)
check-none false e h = refl

first_error-none : (es : List (Option Error)) → first_error es ≡ none → All (λ e. e ≡ none) es
first_error-none [] h = tt
first_error-none (none ∷ es) h = (refl, first_error-none es h)
first_error-none (some e ∷ es) h = absurd (ground arith)

edit_error-none :
    (seen : List Text) (total : ℕ) (e : FileEdit) (rel : Text)
    → edit_error seen total e rel ≡ none
    → any (text_eq rel) seen ≡ false
unfolding edit_error
edit_error-none seen total e rel h =
    let (path, (absolute, (up, (secret, (twice, rest))))) =
      first_error-none (edit_checks seen total e rel) h in
    check-none (any (text_eq rel) seen) (duplicate rel) twice

plan_checked-Planned :
    (made : Text → Bool) (disk : Disk) (seen : List Text) (total : ℕ) (e : FileEdit)
    (o : Option Error)
    → edit_error seen total e (rel_of e) ≡ o
    → Planned disk.files seen e (plan_checked made disk e o).1
plan_checked-Planned made disk seen total e (some f) at = λ p h. absurd (ground arith)
plan_checked-Planned made disk seen total e none at = λ p h.
    let (named, edited) = plan_action-Good made disk e (rel_of e) (asked_of e) p h in
    (
      (named, edited),
      ap (λ x. any (text_eq x) seen) named ∙ edit_error-none seen total e (rel_of e) at,
    )

plan_edit-Planned :
    (made : Text → Bool) (disk : Disk) (seen : List Text) (total : ℕ) (e : FileEdit)
    → Planned disk.files seen e (plan_edit made disk seen total e).1
unfolding plan_edit
plan_edit-Planned made disk seen total e =
    plan_checked-Planned made disk seen total e (edit_error seen total e (rel_of e)) refl

-- The plans, one for each edit, and no path twice.
abbrev pub PlansAll : (Text → Option Bytes) → List FileEdit → List PlannedEdit → Type 0
PlansAll files [] [] = Unit {0}
PlansAll files (e ∷ es) (p ∷ ps) = Plans files e p × PlansAll files es ps
PlansAll files _ _ = ⊥

abbrev Fresh : List Text → List PlannedEdit → Type 0
Fresh seen ps = All (λ p. any (text_eq p.rel) seen ≡ false) ps

Fresh-apart :
    (rel : Text) (seen : List Text) (ps : List PlannedEdit)
    → Fresh (rel ∷ seen) ps
    → Fresh seen ps × (among rel (rels ps) ≡ false)
Fresh-apart rel seen [] h = (tt, refl)
Fresh-apart rel seen (p ∷ ps) (here, later) =
    let (fresh, apart) = Fresh-apart rel seen ps later in
    ((ground (arith, here), fresh), ground (arith, here, apart, text_eq_iff p.rel rel))

abbrev PlannedAll :
    (Text → Option Bytes) → List Text → List FileEdit → Result (List PlannedEdit) → Type 0
PlannedAll files seen es r =
    (ps : List PlannedEdit) → r ≡ ok ps → PlansAll files es ps × IsDistinct ps × Fresh seen ps

followed-Planned :
    (files : Text → Option Bytes) (seen : List Text) (e : FileEdit) (es : List FileEdit)
    (disk : Disk) (p : PlannedEdit) (answer : Disk × Result (List PlannedEdit))
    → Plans files e p × (any (text_eq p.rel) seen ≡ false)
    → PlannedAll files (rel_of e ∷ seen) es answer.1
    → PlannedAll files seen (e ∷ es) (prepended p answer).1
followed-Planned files seen e es disk p (disk', err f) plans rest ps h = absurd (ground arith)
followed-Planned files seen e es disk p (disk', ok qs) (plans, free) rest ps h =
    let (planned, distinct, fresh) = rest qs refl in
    let (fresher, apart) = Fresh-apart (rel_of e) seen qs fresh in
    let unlike : among p.rel (rels qs) ≡ false = ap (λ x. among x (rels qs)) plans.0 ∙ apart in
    subst (λ x. PlansAll files (e ∷ es) x × IsDistinct x × Fresh seen x) (ok-inj h)
      ((plans, planned), (unlike, distinct), (free, fresher))

then-Planned :
    (files : Text → Option Bytes) (seen : List Text) (e : FileEdit) (es : List FileEdit)
    (disk : Disk) (r : Result PlannedEdit) (answer : Disk × Result (List PlannedEdit))
    → Planned files seen e r
    → PlannedAll files (rel_of e ∷ seen) es answer.1
    → PlannedAll files seen (e ∷ es) (followed disk r answer).1
then-Planned files seen e es disk (err f) answer plan rest = λ ps h. absurd (ground arith)
then-Planned files seen e es disk (ok p) answer plan rest =
    followed-Planned files seen e es disk p answer (plan p refl) rest

pub plan_edits-Planned :
    (made : Text → Bool) (disk : Disk) (seen : List Text) (total : ℕ) (es : List FileEdit)
    → PlannedAll disk.files seen es (plan_edits made disk seen total es).1
unfolding plan_edits
plan_edits-Planned made disk seen total [] = λ ps h.
    subst (λ x. PlansAll disk.files [] x × IsDistinct x × Fresh seen x) (ok-inj h) (tt, tt, tt)
plan_edits-Planned made disk seen total (e ∷ es) =
    let (disk', r) = plan_edit made disk seen total e in
    then-Planned disk.files seen e es disk' r _ (plan_edit-Planned made disk seen total e) (
      subst
        (λ fs.
          PlannedAll fs (rel_of e ∷ seen) es
            (plan_edits made disk' (rel_of e ∷ seen) (total + length e.new_text) es).1)
        (plan_edit-files made disk seen total e)
        (plan_edits-Planned made disk' (rel_of e ∷ seen) (total + length e.new_text) es))
