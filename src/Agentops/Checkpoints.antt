-- ===== src/Agentops/Checkpoints.antt =====
-- internal/agentops/write.go: the checkpoint before a patch, in the client's state directory. What
-- the file system answers is an argument. `digest` is SHA-256 in hex.
pub mod Blobs
pub mod Kept
use codebridge.Base.{
  ℕ, zero, suc, ◌+◌, ◌-◌, Bool, true, false, ◌&&◌, ◌||◌, not, String, Option, none, some, List, [],
  ◌∷◌, ◌++◌, map, nat_eq, ltb, leb, str_eq, if◌then◌else◌, length, drop, any, all,
}
use codebridge.Base.Text.{Text, is_empty, text_eq}
use codebridge.Agentops.Edits.{Bytes, FileEdit, Action, create, delete, replace}
use codebridge.Agentops.Diff.{Hunk, edit_diff}
use codebridge.Agentops.Patch.{
  Disk, PlannedEdit, Error, Result, ok, err, write_file, plan_edits, check, first_error,
  max_patch_files, not_write_enabled, edits_required, too_many_files, confirmation_required,
  root_refused, checkpoint_failed, write_failed, checkpoint_not_found, rollback_failed, parent_of,
  mkdir_all, is_there,
}

abbrev pub max_checkpoints_kept : ℕ
max_checkpoints_kept = 20

pub record CheckpointFile : Type 0 where
  pub path : Text
  pub blob : Text
  pub absent : Bool
  pub existed : Bool

pub record Checkpoint : Type 0 where
  pub id : String
  pub workspace : String
  pub files : List CheckpointFile

-- The client's state directory: the checkpoints in their file, and the blobs.
pub record Vault : Type 0 where
  pub checkpoints : List Checkpoint
  pub blobs : Text → Option Bytes

pub record World : Type 0 where
  pub disk : Disk
  pub vault : Vault

pub data Write : Type 0 where
  written not_opened : Write
  cut : Bytes → Write

-- What the file system answers to one call.
pub record Io : Type 0 where
  pub made : Text → Bool
  pub blob_saved : Text → Bool
  pub checkpoints_read : Bool
  pub checkpoints_saved : Bool
  pub root_opened : Bool
  pub write : Text → Write
  pub restored : Text → Bool

abbrev pub is_hex : ℕ → Bool
is_hex c = (leb b'0' c && leb c b'9') || (leb b'a' c && leb c b'f')

unfoldable pub is_blob_name : Text → Bool
is_blob_name name = nat_eq (length name) 64 && all is_hex name

unfoldable pub load_blob : Vault → Text → Option Bytes
unfolding is_blob_name
load_blob vault name = if is_blob_name name then vault.blobs name else none

abbrev pub stored_as : Io → Vault → Text → Bytes → Option Bytes → Vault × Option Text
stored_as io vault name content (some old) = (vault, some name)
stored_as io vault name content none =
    if io.blob_saved name
    then (record vault { blobs = write_file name (some content) vault.blobs }, some name)
    else (vault, none)

-- The vault, and the name of the blob if it is there.
unfoldable pub store_blob : (Bytes → Text) → Io → Vault → Bytes → Vault × Option Text
unfolding write_file
store_blob digest io vault content =
    let name = digest content in stored_as io vault name content (vault.blobs name)

abbrev pub kept_file : Text → Text → CheckpointFile
kept_file path blob = record { path = path; blob = blob; absent = false; existed = true }

abbrev pub absent_file : Text → CheckpointFile
absent_file path = record { path = path; blob = []; absent = true; existed = false }

-- One file of the checkpoint; a directory cannot be read.
abbrev pub snapshot :
    (Bytes → Text) → Io → Disk → Vault → Text → Option Bytes → Vault × Option CheckpointFile
snapshot digest io disk vault rel (some content) =
    let (vault', name) = store_blob digest io vault content in
    (vault', elim name [ none ↦ none | some n ↦ some (kept_file rel n) ])
snapshot digest io disk vault rel none =
    (vault, if disk.dirs rel then none else some (absent_file rel))

abbrev pub with_file :
    CheckpointFile → Vault × Option (List CheckpointFile) → Vault × Option (List CheckpointFile)
with_file f (vault, none) = (vault, none)
with_file f (vault, some fs) = (vault, some (f ∷ fs))

unfoldable pub snapshots :
    (Bytes → Text) → Io → Disk → Vault → List PlannedEdit → Vault × Option (List CheckpointFile)
unfolding store_blob
snapshots digest io disk vault [] = (vault, some [])
snapshots digest io disk vault (p ∷ planned) =
    let (vault', file) = snapshot digest io disk vault p.rel (disk.files p.rel) in
    elim file [
      | none ↦ (vault', none)
      | some f ↦ with_file f (snapshots digest io disk vault' planned)
    ]

abbrev pub refers : Text → CheckpointFile → Bool
refers name f = not (is_empty f.blob) && text_eq f.blob name

abbrev pub refers_to : Text → Checkpoint → Bool
refers_to name cp = any (refers name) cp.files

unfoldable pub prune_blobs : List Checkpoint → (Text → Option Bytes) → Text → Option Bytes
unfolding text_eq
prune_blobs kept blobs name = if any (refers_to name) kept then blobs name else none

abbrev pub newest : List Checkpoint → List Checkpoint
newest cps = drop (length cps - max_checkpoints_kept) cps

-- The blobs are pruned before the file is written.
unfoldable pub append_checkpoint : Io → Vault → Checkpoint → Vault × Bool
unfolding prune_blobs
append_checkpoint io vault cp =
    let kept = newest (vault.checkpoints ++ (cp ∷ [])) in
    let pruned = prune_blobs kept vault.blobs in
    if not io.checkpoints_read
    then (vault, false)
    else if io.checkpoints_saved
    then (record { checkpoints = kept; blobs = pruned }, true)
    else (record vault { blobs = pruned }, false)

abbrev pub appended : Io → Checkpoint → Vault → Vault × Option Checkpoint
appended io cp vault =
    let (vault', saved) = append_checkpoint io vault cp in (vault', if saved then some cp else none)

unfoldable pub create_checkpoint :
    (Bytes → Text) → Io → String → String → World → List PlannedEdit → Vault × Option Checkpoint
unfolding snapshots append_checkpoint
create_checkpoint digest io id workspace world planned =
    let (vault, files) = snapshots digest io world.disk world.vault planned in
    elim files [
      | none ↦ (vault, none)
      | some fs ↦ appended io (record { id = id; workspace = workspace; files = fs }) vault
    ]
