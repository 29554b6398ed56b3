-- ===== src/Agentops/Writes.antt =====
-- internal/agentops/write.go: the writes of applyPatch, and the restoring when one fails. The mutex
-- makes each call one step. A write that fails after the file was opened leaves the part that was
-- written.
pub mod Restored
pub mod Failing
pub mod Applied
use codebridge.Base.{
  ℕ, zero, suc, ◌+◌, ◌-◌, Bool, true, false, ◌&&◌, ◌||◌, not, String, Option, none, some, List, [],
  ◌∷◌, ◌++◌, map, nat_eq, ltb, leb, str_eq, if◌then◌else◌, length, drop, any, all,
}
use codebridge.Base.Text.{Text, is_empty, text_eq}
use codebridge.Agentops.Edits.{Bytes, FileEdit, Action, create, delete, replace}
use codebridge.Agentops.Diff.{Hunk, edit_diff}
use codebridge.Agentops.Patch.{
  Disk, PlannedEdit, Error, Result, ok, err, write_file, plan_edits, check, first_error,
  max_patch_files, not_write_enabled, edits_required, too_many_files, confirmation_required,
  root_refused, checkpoint_failed, write_failed, checkpoint_not_found, rollback_failed, parent_of,
  mkdir_all, is_there,
}
use codebridge.Agentops.Checkpoints.{
  max_checkpoints_kept, is_hex, is_blob_name, load_blob, store_blob, kept_file, absent_file,
  snapshot, with_file, snapshots, refers, refers_to, prune_blobs, newest, append_checkpoint,
  appended, create_checkpoint, CheckpointFile, Checkpoint, Vault, World, Write, Io, written,
  not_opened, cut,
}

abbrev pub Files : Type 0
Files = Text → Option Bytes

-- The part of a content that was written; a removal has no parts.
abbrev pub cut_short : Action → Text → Bytes → Files → Files
cut_short delete rel part files = files
cut_short create rel part files = write_file rel (some part) files
cut_short replace rel part files = write_file rel (some part) files

-- One write: the files, and whether it worked.
unfoldable pub perform : Write → PlannedEdit → Files → Files × Bool
unfolding write_file
perform written p files = (write_file p.rel p.new_content files, true)
perform not_opened p files = (files, false)
perform (cut part) p files = (cut_short p.action p.rel part files, false)

abbrev pub put_back : Text → Option Bytes → Files → Files
put_back path none files = files
put_back path (some content) files = write_file path (some content) files

unfoldable pub restore_file : Io → Vault → CheckpointFile → Files → Files
unfolding load_blob write_file
restore_file io vault f files =
    let removed = write_file f.path none files in
    let back = put_back f.path (load_blob vault f.blob) files in
    if not (io.restored f.path) then files else if f.absent then removed else back

unfoldable pub restore_matching : Io → Vault → Text → List CheckpointFile → Files → Files
unfolding restore_file text_eq
restore_matching io vault rel [] files = files
restore_matching io vault rel (f ∷ fs) files =
    restore_matching io vault rel fs
      (if text_eq f.path rel then restore_file io vault f files else files)

unfoldable pub restore_partial : Io → Vault → Checkpoint → List PlannedEdit → Files → Files
unfolding restore_matching
restore_partial io vault cp [] files = files
restore_partial io vault cp (p ∷ applied) files =
    restore_partial io vault cp applied (restore_matching io vault p.rel cp.files files)

-- The writes in order, and the path at which one failed.
unfoldable pub write_all :
    Io → Vault → Checkpoint → List PlannedEdit → List PlannedEdit → Files → Files × Option Text
unfolding perform restore_partial
write_all io vault cp applied [] files = (files, none)
write_all io vault cp applied (p ∷ planned) files =
    let (files', done) = perform (io.write p.rel) p files in
    let rest = write_all io vault cp (applied ++ (p ∷ [])) planned files' in
    if done then rest else (restore_partial io vault cp applied files', some p.rel)

pub record ApplyPatchResult : Type 0 where
  pub applied : Bool
  pub preview : Bool
  pub diff : List Hunk
  pub files : List (Text × Action)
  pub checkpoint_id : String

abbrev pub summary : PlannedEdit → Text × Action
summary p = (p.rel, p.action)

abbrev pub section_of : PlannedEdit → Hunk
section_of p = edit_diff p.rel p.action p.old_content p.new_content

abbrev pub previewed : List PlannedEdit → ApplyPatchResult
previewed planned = record {
  applied = false;
  preview = true;
  diff = map section_of planned;
  files = map summary planned;
  checkpoint_id = "";
}

abbrev pub done_with : List PlannedEdit → Checkpoint → ApplyPatchResult
done_with planned cp = record {
  applied = true;
  preview = false;
  diff = [];
  files = map summary planned;
  checkpoint_id = cp.id;
}

abbrev pub outcome : List PlannedEdit → Checkpoint → Option Text → Result ApplyPatchResult
outcome planned cp none = ok (done_with planned cp)
outcome planned cp (some rel) = err (write_failed rel cp.id)

-- The part after the checkpoint.
abbrev pub write_planned :
    Io → World → List PlannedEdit → Vault → Option Checkpoint → World × Result ApplyPatchResult
write_planned io world planned vault none = (record world { vault = vault }, err checkpoint_failed)
write_planned io world planned vault (some cp) =
    let (files, failed) = write_all io vault cp [] planned world.disk.files in
    if not io.root_opened then (record world { vault = vault }, err root_refused) else (
      record { disk = record (world.disk) { files = files }; vault = vault },
      outcome planned cp failed,
    )

abbrev pub apply_planned :
    (Bytes → Text)
    → Io
    → String
    → String
    → Bool
    → World
    → Result (List PlannedEdit)
    → World × Result ApplyPatchResult
apply_planned digest io id workspace preview world (err e) = (world, err e)
apply_planned digest io id workspace true world (ok planned) = (world, ok (previewed planned))
apply_planned digest io id workspace false world (ok planned) =
    let (vault, cp) = create_checkpoint digest io id workspace world planned in
    write_planned io world planned vault cp

abbrev pub call_error : Bool → Bool → List FileEdit → Bool → Bool → Option Error
call_error writable root_allowed edits preview confirm = first_error (
    check (not writable) not_write_enabled
    ∷ check (is_empty edits) edits_required
    ∷ check (ltb max_patch_files (length edits)) too_many_files
    ∷ check (not preview && not confirm) confirmation_required
    ∷ check (not root_allowed) root_refused
    ∷ [])

abbrev pub unless_refused :
    Option Error → World → World × Result ApplyPatchResult → World × Result ApplyPatchResult
unless_refused (some e) world answer = (world, err e)
unless_refused none world answer = answer

-- `writable` is s.Writable[workspace], `root_allowed` what resolveWorkspaceRoot says of the root,
-- `id` the new checkpoint's id.
unfoldable pub apply_patch :
    (Bytes → Text)
    → Io
    → String
    → String
    → Bool
    → Bool
    → World
    → List FileEdit
    → Bool
    → Bool
    → World × Result ApplyPatchResult
unfolding plan_edits create_checkpoint write_all edit_diff
apply_patch digest io id workspace writable root_allowed world edits preview confirm =
    let (disk, planned) = plan_edits io.made world.disk [] 0 edits in
    unless_refused (call_error writable root_allowed edits preview confirm) world
      (apply_planned digest io id workspace preview (record world { disk = disk }) planned)
