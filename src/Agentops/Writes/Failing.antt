-- ===== src/Agentops/Writes/Failing.antt =====
-- A patch that fails while it writes.
use codebridge.Base.{
  ◌≡◌, refl, sym, ap, ◌∙◌, String, Bool, true, false, ◌||◌, not, Option, none, some, List, [], ◌∷◌,
  ◌++◌, arith, if_lem, All, Bool-cases, some-inj, ◌⊎◌, inl, inr,
}
use mathlib.Core.Path.{subst}
use mathlib.Core.List.{append_assoc}
use codebridge.Base.Text.{Text, text_eq}
use codebridge.Agentops.Edits.{Bytes, FileEdit}
use codebridge.Agentops.Patch.{PlannedEdit, Error, Result, ok, err, plan_edits, write_failed}
use codebridge.Agentops.Patch.Planned.{plan_edits-files}
use codebridge.Agentops.Checkpoints.{Checkpoint, Vault, World, Io, not_opened}
use codebridge.Agentops.Checkpoints.Blobs.{IsDigest, IsStored, Holds}
use codebridge.Agentops.Checkpoints.Kept.{create_checkpoint-Made}
use codebridge.Agentops.Writes.{
  Files, ApplyPatchResult, perform, restore_partial, write_all, write_planned, apply_planned,
  apply_patch, call_error, unless_refused, outcome,
}
use codebridge.Agentops.Patch.Asked.{among, rels}
use codebridge.Agentops.Writes.Restored.{
  paths, Restores, restore_partial-same, restore_partial-here, perform-other,
}

among-append :
    (q : Text) (xs ys : List PlannedEdit)
    → among q (rels (xs ++ ys)) ≡ (among q (rels xs) || among q (rels ys))
among-append q [] ys = refl
among-append q (x ∷ xs) ys = ground (arith, among-append q xs ys)

module _ (io : Io) (vault : Vault) (before : Files) (cp : Checkpoint) (all_restored : Restores io)
    (h : All (Holds vault before) cp.files) where
  -- Only the paths of `applied` may differ from what they were.
  abbrev Touched : List PlannedEdit → Files → Type 0
  Touched applied files = (q : Text) → among q (rels applied) ≡ false → files q ≡ before q

  -- All is as it was, but for the path at which a write was cut.
  abbrev Undone : Files → Text → Type 0
  Undone files rel =
      (q : Text) → ((text_eq rel q ≡ false) ⊎ (io.write rel ≡ not_opened)) → files q ≡ before q

  untouched :
      (p : PlannedEdit) (files : Files) (q : Text)
      → ((text_eq p.rel q ≡ false) ⊎ (io.write p.rel ≡ not_opened))
      → (perform (io.write p.rel) p files).0 q ≡ files q
  untouched p files q (inl other) = perform-other (io.write p.rel) p files q other
  untouched p files q (inr closed) = unfold perform in rw closed refl

  further :
      (applied : List PlannedEdit) (p : PlannedEdit) (files : Files)
      → Touched applied files
      → Touched (applied ++ (p ∷ [])) (perform (io.write p.rel) p files).0
  further applied p files touched q free =
      let apart = among-append q applied (p ∷ []) in
      perform-other (io.write p.rel) p files q (ground (arith, apart, free))
      ∙ touched q (ground (arith, apart, free))

  undone :
      (applied planned : List PlannedEdit) (p : PlannedEdit) (files : Files)
      → rels (applied ++ (p ∷ planned)) ≡ paths cp.files
      → Touched applied files
      → Undone (restore_partial io vault cp applied (perform (io.write p.rel) p files).0) p.rel
  undone applied planned p files whole touched q apart =
      elim (Bool-cases (among q (rels applied))) [
        | inl there ↦
            let kept : among q (paths cp.files) ≡ true =
              ap (among q) (sym whole)
              ∙ among-append q applied (p ∷ planned)
              ∙ ap (λ b. b || among q (rels (p ∷ planned))) there in
            restore_partial-here io vault before all_restored cp applied _ q h kept there
        | inr free ↦
            restore_partial-same io vault before all_restored cp applied _ q h
              (untouched p files q apart ∙ touched q free)
      ]

  write_all-Undone :
      (applied planned : List PlannedEdit) (files : Files) (rel : Text)
      → rels (applied ++ planned) ≡ paths cp.files
      → Touched applied files
      → (write_all io vault cp applied planned files).1 ≡ some rel
      → Undone (write_all io vault cp applied planned files).0 rel
  unfolding write_all
  write_all-Undone applied [] files rel whole touched = λ failed. absurd (ground arith)
  write_all-Undone applied (p ∷ planned) files rel whole touched =
      if_lem (λ (x : Files × Option Text). x.1 ≡ some rel → Undone x.0 rel)
        (perform (io.write p.rel) p files).1 _ _
        (λ done.
          write_all-Undone (applied ++ (p ∷ [])) planned (perform (io.write p.rel) p files).0 rel
            (ap rels (append_assoc applied (p ∷ []) planned) ∙ whole)
            (further applied p files touched))
        (λ lost failed.
          subst
            (λ x.
              Undone (restore_partial io vault cp applied (perform (io.write p.rel) p files).0) x)
            (some-inj failed) (undone applied planned p files whole touched))

outcome-failed :
    (planned : List PlannedEdit) (cp : Checkpoint) (o : Option Text) (e : Error)
    → outcome planned cp o ≡ err e
    → (rel : Text) × (o ≡ some rel) × (e ≡ write_failed rel cp.id)
outcome-failed planned cp none e h = absurd (ground arith)
outcome-failed planned cp (some r) e h = (r, refl, ground (arith, h))

-- The path `q` is not the one at which a write was cut, if `e` tells of one.
abbrev pub Apart : Io → Error → Text → Type 0
Apart io e q =
    (rel : Text) (id : String)
    → e ≡ write_failed rel id
    → (text_eq rel q ≡ false) ⊎ (io.write rel ≡ not_opened)

-- A call that fails leaves the files as they were, but for such a path.
abbrev Leaves : Io → Files → World × Result ApplyPatchResult → Type 0
Leaves io files (world, result) =
    (e : Error) → result ≡ err e → (q : Text) → Apart io e q → world.disk.files q ≡ files q

write_planned-Leaves :
    (io : Io) (world : World) (planned : List PlannedEdit) (vault : Vault) (o : Option Checkpoint)
    → Restores io
    → ((cp : Checkpoint)
        → o ≡ some cp
        → (paths cp.files ≡ rels planned) × All (Holds vault world.disk.files) cp.files)
    → Leaves io world.disk.files (write_planned io world planned vault o)
write_planned-Leaves io world planned vault none restores kept = λ e failed q apart. refl
write_planned-Leaves io world planned vault (some cp) restores kept =
    let (whole, holds) = kept cp refl in
    if_lem (Leaves io world.disk.files) (not io.root_opened) _ _ (λ closed e failed q apart. refl)
      (λ opened e failed q apart.
        let (rel, at, told) =
          outcome-failed planned cp (write_all io vault cp [] planned world.disk.files).1 e
            failed in
        write_all-Undone io vault world.disk.files cp restores holds [] planned world.disk.files rel
          (sym whole) (λ r free. refl) at q (apart rel cp.id told))

apply_planned-Leaves :
    (digest : Bytes → Text) (io : Io) (id workspace : String) (preview : Bool) (world : World)
    (planned : Result (List PlannedEdit))
    → IsDigest digest world.disk.files
    → IsStored digest world.disk.files world.vault.blobs
    → Restores io
    → Leaves io world.disk.files (apply_planned digest io id workspace preview world planned)
apply_planned-Leaves digest io id workspace preview world (err e) d stored restores =
    λ f failed q apart. refl
apply_planned-Leaves digest io id workspace true world (ok planned) d stored restores =
    λ f failed q apart. refl
apply_planned-Leaves digest io id workspace false world (ok planned) d stored restores =
    let made = create_checkpoint-Made digest io id workspace world planned d stored in
    write_planned-Leaves io world planned _ _ restores
      (λ cp e. let (i, w, whole, holds, kept) = made cp e in (whole, holds))

refused-Leaves :
    (io : Io) (world : World) (o : Option Error) (answer : World × Result ApplyPatchResult)
    → Leaves io world.disk.files answer
    → Leaves io world.disk.files (unless_refused o world answer)
refused-Leaves io world (some f) answer leaves = λ e failed q apart. refl
refused-Leaves io world none answer leaves = leaves

-- A patch that fails, for whatever reason, leaves every file as it was, if the file system can put
-- them back, but for the one at which a write failed after the file was opened.
pub apply_patch-err :
    (digest : Bytes → Text) (io : Io) (id workspace : String) (writable root_allowed : Bool)
    (world : World) (edits : List FileEdit) (preview confirm : Bool) (e : Error) (q : Text)
    → IsDigest digest world.disk.files
    → IsStored digest world.disk.files world.vault.blobs
    → Restores io
    → (apply_patch digest io id workspace writable root_allowed world edits preview confirm).1
      ≡ err e
    → Apart io e q
    → (apply_patch digest io id workspace writable root_allowed world edits preview
          confirm).0.disk.files
        q
      ≡ world.disk.files q
unfolding apply_patch
apply_patch-err digest io id workspace writable root_allowed world edits preview confirm e q d
      stored restores failed apart =
    let (disk, planned) = plan_edits io.made world.disk [] 0 edits in
    let same : disk.files ≡ world.disk.files = plan_edits-files io.made world.disk [] 0 edits in
    refused-Leaves io world (call_error writable root_allowed edits preview confirm) _
      (λ f failed p apart.
        apply_planned-Leaves digest io id workspace preview (record world { disk = disk }) planned
          (subst (IsDigest digest) (sym same) d)
          (subst (λ fs. IsStored digest fs world.vault.blobs) (sym same) stored) restores f failed p
          apart
        ∙ ap (λ (fs : Files). fs p) same)
      e failed q apart
