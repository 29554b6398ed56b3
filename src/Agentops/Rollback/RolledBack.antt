-- ===== src/Agentops/Rollback/RolledBack.antt =====
-- Rolling a patch back.
use codebridge.Base.{
  ◌≡◌, refl, sym, ap, ◌∙◌, String, Bool, true, false, ◌&&◌, not, none, some, List, [], ◌∷◌, ◌++◌,
  arith, if_lem, All, str_eq, eq_iff, ℕ, zero, suc, ◌-◌, length, drop, Bool-cases, inl, inr,
}
use mathlib.Core.Path.{subst}
use codebridge.Base.Text.{Text, text_eq, text_eq_iff}
use codebridge.Agentops.Edits.{Bytes, FileEdit}
use codebridge.Agentops.Patch.{Disk, ok, is_there, parent_of}
use codebridge.Agentops.Patch.Asked.{among}
use codebridge.Agentops.Checkpoints.{CheckpointFile, Checkpoint, Vault, World, Io}
use codebridge.Agentops.Checkpoints.Blobs.{IsDigest, IsStored, Holds}
use codebridge.Agentops.Checkpoints.Kept.{newest-append}
use codebridge.Agentops.Writes.{Files, ApplyPatchResult, apply_patch}
use codebridge.Agentops.Writes.Restored.{paths, Restores, write_file-back, write_file_self}
use codebridge.Agentops.Writes.Applied.{apply_patch-Done}
use codebridge.Agentops.Rollback.{
  RollbackResult, Rollback, take_away, bring_back, rollback_file, rollback_files, find_checkpoint,
  no_rollback, rollback_patch,
}

-- The file system can do all that a rollback asks of it.
pub record Works (io : Io) : Type 0 where
  pub restores : Restores io
  pub makes : (dir : Text) → io.made dir ≡ true
  pub opens : io.root_opened ≡ true
  pub reads : io.checkpoints_read ≡ true

-- One file is as it was before, the others as they are, and there was no error.
abbrev Back : Files → Text → Disk → Rollback → Type 0
Back before path disk (disk', result, failed) =
    (failed ≡ none)
    × (disk'.files path ≡ before path)
    × ((q : Text) → disk.files q ≡ before q → disk'.files q ≡ before q)

-- Every file is as it was before, and the rollback says so.
abbrev pub Restored : Files → Rollback → Type 0
Restored before (disk', result, failed) =
    (failed ≡ none) × (result.rolled_back ≡ true) × ((q : Text) → disk'.files q ≡ before q)

module _ (io : Io) (vault : Vault) (before : Files) (w : Works io) where
  take_away-Back :
      (path : Text) (disk : Disk) (result : RollbackResult)
      → before path ≡ none
      → Back before path disk (take_away io path disk result)
  take_away-Back path disk result e =
      if_lem (Back before path disk) (is_there disk path && not (io.restored path)) _ _
        (λ stuck. absurd (ground (arith, w.restores path, stuck)))
        (λ free. (
          refl,
          write_file_self path none disk.files ∙ sym e,
          λ q same. write_file-back path none disk.files before q e same,
        ))

  bring_back-Back :
      (path : Text) (disk : Disk) (result : RollbackResult) (c : Bytes)
      → before path ≡ some c
      → Back before path disk (bring_back io path disk result (some c))
  bring_back-Back path disk result c e =
      rw (w.makes (parent_of path), w.restores path)
        (
          refl,
          write_file_self path (some c) disk.files ∙ sym e,
          λ q same. write_file-back path (some c) disk.files before q e same,
        )

  rollback_file-Back :
      (f : CheckpointFile) (disk : Disk) (result : RollbackResult)
      → Holds vault before f
      → Back before f.path disk (rollback_file io vault f disk result)
  unfolding rollback_file
  rollback_file-Back f disk result (inl (gone, e)) =
      if_lem (Back before f.path disk) f.absent _ _ (λ a. take_away-Back f.path disk result e)
        (λ a. absurd (ground (arith, gone, a)))
  rollback_file-Back f disk result (inr (there, (c, e, l))) =
      if_lem (Back before f.path disk) f.absent _ _ (λ a. absurd (ground (arith, there, a)))
        (λ a.
          subst (λ o. Back before f.path disk (bring_back io f.path disk result o)) (sym l)
            (bring_back-Back f.path disk result c e))

  -- Only the paths still to come may differ from what they were.
  abbrev Ahead : List CheckpointFile → Disk → Type 0
  Ahead fs disk = (q : Text) → among q (paths fs) ≡ false → disk.files q ≡ before q

  ahead :
      (f : CheckpointFile) (fs : List CheckpointFile) (disk : Disk) (answer : Rollback)
      → Back before f.path disk answer
      → Ahead (f ∷ fs) disk
      → Ahead fs answer.0
  ahead f fs disk (disk', result, failed) (fine, here, keeps) a q free =
      elim (Bool-cases (text_eq f.path q)) [
        | inl same ↦ subst (λ x. disk'.files x ≡ before x) ((text_eq_iff f.path q).0 same) here
        | inr other ↦ keeps q (a q (ground (arith, other, free)))
      ]

  rollback_files-Restored :
      (fs : List CheckpointFile) (disk : Disk) (result : RollbackResult)
      → All (Holds vault before) fs
      → Ahead fs disk
      → Restored before (rollback_files io vault fs disk result)
  unfolding rollback_files
  rollback_files-Restored [] disk result h a = (refl, refl, λ q. a q refl)
  rollback_files-Restored (f ∷ fs) disk result (h, hs) a =
      let answer = rollback_file io vault f disk result in
      let back = rollback_file-Back f disk result h in
      rw (back.0, rollback_files)
        (rollback_files-Restored fs answer.0 answer.1 hs (ahead f fs disk answer back a))

find-drop :
    (id workspace : String) (n : ℕ) (cps : List Checkpoint)
    → find_checkpoint id workspace cps ≡ none
    → find_checkpoint id workspace (drop n cps) ≡ none
unfolding find_checkpoint
find-drop id workspace zero cps h = h
find-drop id workspace (suc n) [] h = refl
find-drop id workspace (suc n) (cp ∷ cps) h =
    elim (Bool-cases (str_eq cp.id id && str_eq cp.workspace workspace)) [
      | inl found ↦ absurd (ground arith)
      | inr other ↦ find-drop id workspace n cps (rw other at h)
    ]

find-last :
    (id workspace : String) (cps : List Checkpoint) (cp : Checkpoint)
    → find_checkpoint id workspace cps ≡ none
    → (str_eq cp.id id && str_eq cp.workspace workspace) ≡ true
    → find_checkpoint id workspace (cps ++ (cp ∷ [])) ≡ some cp
unfolding find_checkpoint
find-last id workspace [] cp h e = rw e refl
find-last id workspace (x ∷ cps) cp h e =
    elim (Bool-cases (str_eq x.id id && str_eq x.workspace workspace)) [
      | inl found ↦ absurd (ground arith)
      | inr other ↦ rw other (find-last id workspace cps cp (rw other at h) e)
    ]

own :
    (id workspace : String) (cp : Checkpoint)
    → cp.id ≡ id
    → cp.workspace ≡ workspace
    → (str_eq cp.id id && str_eq cp.workspace workspace) ≡ true
own id workspace cp same there =
    rw (same, there, (eq_iff id id).1 refl, (eq_iff workspace workspace).1 refl) refl

rollback_patch-found :
    (io : Io) (workspace : String) (world : World) (id : String) (before : Files) (cp : Checkpoint)
    → Works io
    → find_checkpoint id workspace world.vault.checkpoints ≡ some cp
    → Restored before (rollback_files io world.vault cp.files world.disk (no_rollback id))
    → Restored before (rollback_patch io workspace true world id)
unfolding rollback_patch
rollback_patch-found io workspace world id before cp w found h = rw (w.reads, found, w.opens) h

-- A patch that was applied, with an id that no checkpoint of the workspace had, and is then rolled
-- back with that id, on a file system that can do all that the rollback asks of it: the rollback
-- has no error and says that it rolled back, and every file is as it was before the patch.
pub rollback_patch-apply_patch :
    (digest : Bytes → Text) (io later : Io) (id workspace : String) (writable root_allowed : Bool)
    (world : World) (edits : List FileEdit) (confirm : Bool) (r : ApplyPatchResult)
    → IsDigest digest world.disk.files
    → IsStored digest world.disk.files world.vault.blobs
    → find_checkpoint id workspace world.vault.checkpoints ≡ none
    → Works later
    → (apply_patch digest io id workspace writable root_allowed world edits false confirm).1 ≡ ok r
    → Restored world.disk.files (
        rollback_patch later workspace true
          (apply_patch digest io id workspace writable root_allowed world edits false confirm).0
          id)
rollback_patch-apply_patch digest io later id workspace writable root_allowed world edits confirm r
      d stored fresh w h =
    let c =
      (apply_patch-Done digest io id workspace writable root_allowed world edits confirm d stored r
        h).applies in
    let world' =
      (apply_patch digest io id workspace writable root_allowed world edits false confirm).0 in
    let cps = world.vault.checkpoints in
    let (named, there, kept, holds, saved) = c.made c.cp refl in
    let found : find_checkpoint id workspace world'.vault.checkpoints ≡ some c.cp =
      ap (find_checkpoint id workspace) (saved ∙ newest-append cps c.cp)
      ∙ find-last id workspace (drop (suc (length cps) - 20) cps) c.cp
          (find-drop id workspace (suc (length cps) - 20) cps fresh)
          (own id workspace c.cp named there) in
    rollback_patch-found later workspace world' id world.disk.files c.cp w found (
      rollback_files-Restored later world'.vault world.disk.files w c.cp.files world'.disk
        (no_rollback id) holds (λ q free. c.other q (ap (among q) (sym kept) ∙ free)))
