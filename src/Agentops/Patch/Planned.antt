-- ===== src/Agentops/Patch/Planned.antt =====
-- What planning a patch does to the disk, and what its plans say.
use codebridge.Base.{
  ℕ, ◌+◌, ◌≡◌, refl, ap, ◌∙◌, Bool, Option, none, some, List, [], ◌∷◌, arith, if_lem, length,
}
use codebridge.Base.Text.{Text}
use codebridge.Agentops.Edits.{FileEdit, Action, create, delete, replace, action_of}
use codebridge.Agentops.Patch.{
  Disk, PlannedEdit, Error, Result, ok, err, ensure_parent_dir, plan_action, plan_checked,
  plan_edit, plan_edits, prepended, followed, rel_of, edit_error, is_there,
}

ensure_parent_dir-files :
    (made : Text → Bool) (disk : Disk) (rel : Text)
    → (ensure_parent_dir made disk rel).0.files ≡ disk.files
ensure_parent_dir-files made disk rel = ground arith

plan_action-files :
    (made : Text → Bool) (disk : Disk) (edit : FileEdit) (rel : Text) (a : Option Action)
    → (plan_action made disk edit rel a).0.files ≡ disk.files
plan_action-files made disk edit rel none = refl
plan_action-files made disk edit rel (some create) =
    if_lem (λ (x : Disk × Result PlannedEdit). x.0.files ≡ disk.files) (is_there disk rel) _ _
      (λ e. refl) (λ e. ensure_parent_dir-files made disk rel)
plan_action-files made disk edit rel (some delete) = refl
plan_action-files made disk edit rel (some replace) = refl

plan_checked-files :
    (made : Text → Bool) (disk : Disk) (edit : FileEdit) (e : Option Error)
    → (plan_checked made disk edit e).0.files ≡ disk.files
plan_checked-files made disk edit (some e) = refl
plan_checked-files made disk edit none =
    plan_action-files made disk edit (rel_of edit) (action_of edit.old_text edit.new_text)

pub plan_edit-files :
    (made : Text → Bool) (disk : Disk) (seen : List Text) (total : ℕ) (edit : FileEdit)
    → (plan_edit made disk seen total edit).0.files ≡ disk.files
unfolding plan_edit
plan_edit-files made disk seen total edit =
    plan_checked-files made disk edit (edit_error seen total edit (rel_of edit))

prepended-files :
    (p : PlannedEdit) (answer : Disk × Result (List PlannedEdit))
    → (prepended p answer).0 ≡ answer.0
prepended-files p (disk, err e) = refl
prepended-files p (disk, ok ps) = refl

-- The plan of the other edits, or the first error.
then-files :
    (r : Result PlannedEdit) (disk disk' : Disk) (answer : Disk × Result (List PlannedEdit))
    → disk'.files ≡ disk.files
    → answer.0.files ≡ disk'.files
    → (followed disk' r answer).0.files ≡ disk.files
then-files (err e) disk disk' answer same later = same
then-files (ok p) disk disk' answer same later =
    ap (λ d. d.files) (prepended-files p answer) ∙ later ∙ same

-- Planning makes directories and changes no file.
pub plan_edits-files :
    (made : Text → Bool) (disk : Disk) (seen : List Text) (total : ℕ) (edits : List FileEdit)
    → (plan_edits made disk seen total edits).0.files ≡ disk.files
unfolding plan_edits
plan_edits-files made disk seen total [] = refl
plan_edits-files made disk seen total (edit ∷ edits) =
    let (disk', planned) = plan_edit made disk seen total edit in
    then-files planned disk disk' _ (plan_edit-files made disk seen total edit)
      (plan_edits-files made disk' (rel_of edit ∷ seen) (total + length edit.new_text) edits)
