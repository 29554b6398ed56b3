-- ===== src/Agentops/Rollback.antt =====
-- internal/agentops/write.go: rollbackPatch.
pub mod RolledBack
use codebridge.Base.{
  ℕ, zero, suc, ◌+◌, ◌-◌, Bool, true, false, ◌&&◌, ◌||◌, not, String, Option, none, some, List, [],
  ◌∷◌, ◌++◌, map, nat_eq, ltb, leb, str_eq, if◌then◌else◌, length, drop, any, all,
}
use codebridge.Base.Text.{Text, is_empty, text_eq}
use codebridge.Agentops.Edits.{Bytes, FileEdit, Action, create, delete, replace}
use codebridge.Agentops.Diff.{Hunk, edit_diff}
use codebridge.Agentops.Patch.{
  Disk, PlannedEdit, Error, Result, ok, err, write_file, plan_edits, check, first_error,
  max_patch_files, not_write_enabled, edits_required, too_many_files, confirmation_required,
  root_refused, checkpoint_failed, write_failed, checkpoint_not_found, rollback_failed, parent_of,
  mkdir_all, is_there,
}
use codebridge.Agentops.Checkpoints.{
  max_checkpoints_kept, is_hex, is_blob_name, load_blob, store_blob, kept_file, absent_file,
  snapshot, with_file, snapshots, refers, refers_to, prune_blobs, newest, append_checkpoint,
  appended, create_checkpoint, CheckpointFile, Checkpoint, Vault, World, Write, Io, written,
  not_opened, cut,
}
use codebridge.Agentops.Writes.{
  Files, perform, put_back, restore_file, restore_matching, restore_partial, write_all, summary,
  section_of, previewed, done_with, write_planned, apply_planned, call_error, apply_patch,
  ApplyPatchResult,
}

pub record RollbackResult : Type 0 where
  pub rolled_back : Bool
  pub checkpoint_id : String
  pub restored_files : List Text
  pub removed_files : List Text

abbrev pub Rollback : Type 0
Rollback = Disk × RollbackResult × Option Error

-- `Remove`, for which a file that is not there is no error.
abbrev pub take_away : Io → Text → Disk → RollbackResult → Rollback
take_away io path disk result =
    if is_there disk path && not (io.restored path)
    then (disk, result, some (rollback_failed path))
    else (
      record disk { files = write_file path none disk.files },
      record result { removed_files = result.removed_files ++ (path ∷ []) },
      none,
    )

abbrev pub bring_back : Io → Text → Disk → RollbackResult → Option Bytes → Rollback
bring_back io path disk result none = (disk, result, some (rollback_failed path))
bring_back io path disk result (some content) =
    if not (io.made (parent_of path))
    then (disk, result, some (rollback_failed path))
    else let disk' = record disk { dirs = mkdir_all (parent_of path) disk.dirs } in
      if not (io.restored path) then (disk', result, some (rollback_failed path)) else (
        record disk' { files = write_file path (some content) disk.files },
        record result { restored_files = result.restored_files ++ (path ∷ []) },
        none,
      )

unfoldable pub rollback_file : Io → Vault → CheckpointFile → Disk → RollbackResult → Rollback
unfolding load_blob write_file mkdir_all parent_of
rollback_file io vault f disk result =
    let removed = take_away io f.path disk result in
    let back = bring_back io f.path disk result (load_blob vault f.blob) in
    if f.absent then removed else back

unfoldable pub rollback_files : Io → Vault → List CheckpointFile → Disk → RollbackResult → Rollback
unfolding rollback_file
rollback_files io vault [] disk result = (disk, record result { rolled_back = true }, none)
rollback_files io vault (f ∷ fs) disk result =
    let (disk', result', failed) = rollback_file io vault f disk result in
    elim failed [
      | some e ↦ (disk', result', some e)
      | none ↦ rollback_files io vault fs disk' result'
    ]

unfoldable pub find_checkpoint : String → String → List Checkpoint → Option Checkpoint
find_checkpoint id workspace [] = none
find_checkpoint id workspace (cp ∷ cps) =
    if str_eq cp.id id && str_eq cp.workspace workspace
    then some cp
    else find_checkpoint id workspace cps

abbrev pub no_rollback : String → RollbackResult
no_rollback id = record {
  rolled_back = false;
  checkpoint_id = id;
  restored_files = [];
  removed_files = [];
}

abbrev pub rollback_with : Io → World → String → Option Checkpoint → Rollback
rollback_with io world id none = (world.disk, no_rollback "", some (checkpoint_not_found id))
rollback_with io world id (some cp) =
    if not io.root_opened
    then (world.disk, no_rollback "", some root_refused)
    else rollback_files io world.vault cp.files world.disk (no_rollback id)

unfoldable pub rollback_patch : Io → String → Bool → World → String → Rollback
unfolding rollback_files find_checkpoint
rollback_patch io workspace writable world id =
    if not writable
    then (world.disk, no_rollback "", some not_write_enabled)
    else if not io.checkpoints_read
    then (world.disk, no_rollback "", some checkpoint_failed)
    else rollback_with io world id (find_checkpoint id workspace world.vault.checkpoints)
