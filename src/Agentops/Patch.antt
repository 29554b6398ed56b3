-- ===== src/Agentops/Patch.antt =====
-- internal/agentops/write.go: how applyPatch checks its edits and plans them. The workspace is a map
-- from paths to contents and a set of directories; no symbolic link stands in it, so that a path
-- names one file, and what can be found can be read. File modes are not modelled. A path is made
-- of code points, a content of bytes.
pub mod Planned
pub mod Asked
use codebridge.Base.{
  ℕ, zero, suc, ◌+◌, ◌*◌, Bool, true, false, ◌&&◌, ◌||◌, not, String, Option, none, some, List, [],
  ◌∷◌, ◌++◌, nat_eq, ltb, if◌then◌else◌, length, any,
}
use codebridge.Base.Text.{Text, codes, is_empty, text_eq, trim_space, has_prefix}
use codebridge.Agentops.Paths.{dot_dot, is_abs, split_on, join, clean, logical_path}
use codebridge.Agentops.Sensitive.{is_sensitive_path}
use codebridge.Agentops.Edits.{
  Bytes, FileEdit, Action, create, delete, replace, action_of, count, replace_first, is_binary,
}

abbrev pub max_patch_files : ℕ
max_patch_files = 20

abbrev pub max_patch_file_bytes : ℕ
max_patch_file_bytes = 512 * 1024

abbrev pub max_patch_total_bytes : ℕ
max_patch_total_bytes = 2 * 1024 * 1024

pub record Disk : Type 0 where
  pub files : Text → Option Bytes
  pub dirs : Text → Bool

unfoldable pub write_file : Text → Option Bytes → (Text → Option Bytes) → Text → Option Bytes
unfolding text_eq
write_file path content files p = if text_eq path p then content else files p

pub record PlannedEdit : Type 0 where
  pub rel : Text
  pub action : Action
  pub old_content : Option Bytes
  pub new_content : Option Bytes

pub data Error : Type 0 where
  not_write_enabled edits_required too_many_files confirmation_required : Error
  root_refused path_required absolute_path path_escapes total_too_large : Error
  sensitive duplicate nothing_set too_large binary already_exists unreadable : Text → Error
  parent_not_allowed mkdir_failed old_text_differs old_text_not_found : Text → Error
  old_text_ambiguous : Text → ℕ → Error
  checkpoint_failed : Error
  write_failed : Text → String → Error
  checkpoint_not_found : String → Error
  rollback_failed : Text → Error

pub data Result {ℓ} (A : Type ℓ) : Type ℓ where
  ok : A → Result A
  err : Error → Result A

abbrev pub check : Bool → Error → Option Error
check b e = if b then some e else none

-- The first error, in the order in which the code looks.
abbrev pub first_error : List (Option Error) → Option Error
first_error [] = none
first_error (none ∷ rest) = first_error rest
first_error (some e ∷ rest) = some e

-- ResolveUnderRoot, where there are no symbolic links.
unfoldable pub not_under_root : Text → Option Error
unfolding is_abs clean text_eq has_prefix
not_under_root rel =
    if is_empty rel || text_eq rel (codes ".")
    then none
    else if is_abs rel
    then some absolute_path
    else check (text_eq (clean rel) dot_dot || has_prefix (clean rel) (codes "../")) path_escapes

abbrev pub edit_checks : List Text → ℕ → FileEdit → Text → List (Option Error)
edit_checks seen total edit rel =
    check (is_empty rel || text_eq rel (codes ".")) path_required
    ∷ check (is_abs edit.path) absolute_path
    ∷ check (has_prefix rel (codes "../")) path_escapes
    ∷ check (is_sensitive_path rel) (sensitive rel)
    ∷ check (any (text_eq rel) seen) (duplicate rel)
    ∷ elim (action_of edit.old_text edit.new_text) [ none ↦ some (nothing_set rel) | some a ↦ none ]
    ∷ check (ltb max_patch_file_bytes (length edit.new_text)) (too_large rel)
    ∷ check (ltb max_patch_total_bytes (total + length edit.new_text)) total_too_large
    ∷ check (is_binary edit.new_text) (binary rel)
    ∷ not_under_root rel
    ∷ []

unfoldable pub edit_error : List Text → ℕ → FileEdit → Text → Option Error
unfolding text_eq is_abs has_prefix is_sensitive_path action_of is_binary not_under_root
edit_error seen total edit rel = first_error (edit_checks seen total edit rel)

abbrev before_last : List Text → List Text
before_last [] = []
before_last (p ∷ []) = []
before_last (p ∷ q ∷ parts) = p ∷ before_last (q ∷ parts)

-- `logicalPath(filepath.Dir(rel))`; a clean path does not start with `./`.
unfoldable pub parent_of : Text → Text
unfolding clean split_on join
parent_of rel = clean (join (before_last (split_on b'/' rel)))

-- `os.MkdirAll`: the directory and the ones above it.
unfoldable pub mkdir_all : Text → (Text → Bool) → Text → Bool
unfolding text_eq has_prefix
mkdir_all dir dirs d = text_eq d dir || has_prefix dir (d ++ codes "/") || dirs d

-- `made` says whether MkdirAll works.
abbrev ensure_parent_dir : (Text → Bool) → Disk → Text → Disk × Option Error
ensure_parent_dir made disk rel =
    let parent = parent_of rel in
    if text_eq parent (codes ".") || disk.dirs parent
    then (disk, none)
    else if made parent
    then (record disk { dirs = mkdir_all parent disk.dirs }, none)
    else (disk, some (mkdir_failed rel))

abbrev planned_as : Text → Action → Option Bytes → Option Bytes → PlannedEdit
planned_as rel action old new = record {
  rel = rel;
  action = action;
  old_content = old;
  new_content = new;
}

abbrev pub is_there : Disk → Text → Bool
is_there disk rel = elim (disk.files rel) [ none ↦ disk.dirs rel | some content ↦ true ]

abbrev pub created : FileEdit → Text → Option Error → Result PlannedEdit
created edit rel none = ok (planned_as rel create none (some edit.new_text))
created edit rel (some e) = err e

abbrev plan_create : (Text → Bool) → Disk → FileEdit → Text → Disk × Result PlannedEdit
plan_create made disk edit rel =
    if is_there disk rel
    then (disk, err (already_exists rel))
    else let (disk', failed) = ensure_parent_dir made disk rel in (disk', created edit rel failed)

-- A directory cannot be read as a file.
abbrev plan_delete : FileEdit → Text → Option Bytes → Result PlannedEdit
plan_delete edit rel none = err (unreadable rel)
plan_delete edit rel (some current) =
    if text_eq current edit.old_text
    then ok (planned_as rel delete (some current) none)
    else err (old_text_differs rel)

abbrev plan_replace : FileEdit → Text → Option Bytes → Result PlannedEdit
plan_replace edit rel none = err (unreadable rel)
plan_replace edit rel (some current) =
    let n = count current edit.old_text in
    if nat_eq n 0
    then err (old_text_not_found rel)
    else if ltb 1 n
    then err (old_text_ambiguous rel n)
    else ok (
        planned_as rel replace (some current)
          (some (replace_first edit.old_text edit.new_text current)))

abbrev pub plan_action :
    (Text → Bool) → Disk → FileEdit → Text → Option Action → Disk × Result PlannedEdit
plan_action made disk edit rel none = (disk, err (nothing_set rel))
plan_action made disk edit rel (some create) = plan_create made disk edit rel
plan_action made disk edit rel (some delete) = (disk, plan_delete edit rel (disk.files rel))
plan_action made disk edit rel (some replace) = (disk, plan_replace edit rel (disk.files rel))

abbrev pub rel_of : FileEdit → Text
rel_of edit = logical_path (trim_space edit.path)

abbrev pub plan_checked : (Text → Bool) → Disk → FileEdit → Option Error → Disk × Result PlannedEdit
plan_checked made disk edit (some e) = (disk, err e)
plan_checked made disk edit none =
    plan_action made disk edit (rel_of edit) (action_of edit.old_text edit.new_text)

unfoldable pub plan_edit :
    (Text → Bool) → Disk → List Text → ℕ → FileEdit → Disk × Result PlannedEdit
unfolding edit_error action_of count replace_first parent_of mkdir_all logical_path
plan_edit made disk seen total edit =
    plan_checked made disk edit (edit_error seen total edit (rel_of edit))

abbrev pub prepended :
    PlannedEdit → Disk × Result (List PlannedEdit) → Disk × Result (List PlannedEdit)
prepended p (disk, err e) = (disk, err e)
prepended p (disk, ok ps) = (disk, ok (p ∷ ps))

abbrev pub followed :
    Disk → Result PlannedEdit → Disk × Result (List PlannedEdit) → Disk × Result (List PlannedEdit)
followed disk (err e) rest = (disk, err e)
followed disk (ok p) rest = prepended p rest

-- The loop over the edits; a directory that it made stays, also after an error.
unfoldable pub plan_edits :
    (Text → Bool) → Disk → List Text → ℕ → List FileEdit → Disk × Result (List PlannedEdit)
unfolding plan_edit logical_path
plan_edits made disk seen total [] = (disk, ok [])
plan_edits made disk seen total (edit ∷ edits) =
    let (disk', planned) = plan_edit made disk seen total edit in
    followed disk' planned
      (plan_edits made disk' (rel_of edit ∷ seen) (total + length edit.new_text) edits)
