-- ===== src/Agentops/FileTests.antt =====
-- The theorems on patches at a small workspace.
use codebridge.Base.{
  ℕ, zero, suc, String, Bool, true, false, ◌≡◌, refl, sym, ap, ◌∙◌, none, some, List, [], ◌∷◌, map,
  arith, if◌then◌else◌, Bool-cases, ◌⊎◌, inl, inr, some-inj,
}
use codebridge.Base.Text.{Text, codes, text_eq, trim_space}
use codebridge.Agentops.Edits.{Bytes, FileEdit, create, delete, replace}
use codebridge.Agentops.Patch.{ok, err, write_failed, rel_of}
use codebridge.Agentops.Patch.Asked.{among}
use codebridge.Agentops.Checkpoints.{World, Write, Io, written, not_opened, is_blob_name}
use codebridge.Agentops.Checkpoints.Blobs.{IsDigest, IsStored}
use codebridge.Agentops.Writes.{Files, ApplyPatchResult, apply_patch}
use codebridge.Agentops.Writes.Failing.{Apart, apply_patch-err}
use codebridge.Agentops.Writes.Applied.{EditedAll, apply_patch-ok}
use codebridge.Agentops.Rollback.{rollback_patch, find_checkpoint}
use codebridge.Agentops.Rollback.RolledBack.{Works, Restored, rollback_patch-apply_patch}

abbrev one : Bytes
one = codes "1"

abbrev two : Bytes
two = codes "2"

abbrev two_files : Files
two_files path =
    if text_eq path (codes "a")
    then some one
    else if text_eq path (codes "b")
    then some two
    else none

two_files-contents : (p : Text) (c : Bytes) → two_files p ≡ some c → (c ≡ one) ⊎ (c ≡ two)
two_files-contents p c h = elim (Bool-cases (text_eq p (codes "a"))) [
  | inl e ↦ inl (sym (some-inj (rw e at h)))
  | inr e ↦ elim (Bool-cases (text_eq p (codes "b"))) [
    | inl f ↦ inr (sym (some-inj (rw (e, f) at h)))
    | inr f ↦ absurd (ground (arith, h, e, f))
  ]
]

abbrev repeated : ℕ → ℕ → Text
repeated c zero = []
repeated c (suc n) = c ∷ repeated c n

abbrev digest : Bytes → Text
digest content = if text_eq content one then repeated b'1' 64 else repeated b'2' 64

named : (b : Bool) → is_blob_name (if b then repeated b'1' 64 else repeated b'2' 64) ≡ true
unfolding is_blob_name
named true = refl
named false = refl

differ : digest one ≡ digest two → one ≡ two
unfolding text_eq
differ h = absurd (ground (arith, h))

digest-IsDigest : IsDigest digest two_files
digest-IsDigest = record {
  named = λ c. named (text_eq c one);
  apart = λ p q c d e f h. both c d (two_files-contents p c e) (two_files-contents q d f) h;
}
  where
    both :
        (c d : Bytes) → (c ≡ one) ⊎ (c ≡ two) → (d ≡ one) ⊎ (d ≡ two) → digest c ≡ digest d → c ≡ d
    both c d (inl e) (inl f) h = e ∙ sym f
    both c d (inl e) (inr f) h = e ∙ differ (ap digest (sym e) ∙ h ∙ ap digest f) ∙ sym f
    both c d (inr e) (inl f) h = e ∙ sym (differ (ap digest (sym f) ∙ sym h ∙ ap digest e)) ∙ sym f
    both c d (inr e) (inr f) h = e ∙ sym f

abbrev workspace_world : World
workspace_world = record {
  disk = record { files = two_files; dirs = λ p. false };
  vault = record { checkpoints = []; blobs = λ name. none };
}

nothing-IsStored : IsStored digest two_files (λ name. none)
nothing-IsStored q c old e h = absurd (ground arith)

-- Every call works but the writes that the argument says.
abbrev machine : (Text → Write) → Io
machine write = record {
  made = λ dir. true;
  blob_saved = λ name. true;
  checkpoints_read = true;
  checkpoints_saved = true;
  root_opened = true;
  write = write;
  restored = λ path. true;
}

abbrev edit : String → Bytes → Bytes → FileEdit
edit path old new = record { path = codes path; old_text = old; new_text = new }

abbrev three_edits : List FileEdit
three_edits = edit "a" one (codes "3") ∷ edit "c" [] (codes "4") ∷ edit "b" two [] ∷ []

abbrev patched : ApplyPatchResult
patched = record {
  applied = true;
  preview = false;
  diff = [];
  files = (codes "a", replace) ∷ (codes "c", create) ∷ (codes "b", delete) ∷ [];
  checkpoint_id = "cp";
}

abbrev all_work : Io
all_work = machine (λ path. written)

three_edits-ok :
    (apply_patch digest all_work "cp" "w" true true workspace_world three_edits false true).1
    ≡ ok patched
unfolding apply_patch trim_space
three_edits-ok = refl

abbrev patched_world : World
patched_world =
    (apply_patch digest all_work "cp" "w" true true workspace_world three_edits false true).0

apply_patch-ok_example :
    EditedAll two_files patched_world.disk.files three_edits
    × ((q : Text)
        → among q (map rel_of three_edits) ≡ false
        → patched_world.disk.files q ≡ two_files q)
apply_patch-ok_example =
    apply_patch-ok digest all_work "cp" "w" true true workspace_world three_edits true patched
      digest-IsDigest nothing-IsStored three_edits-ok

all_work-Works : Works all_work
all_work-Works = record { restores = λ path. refl; makes = λ dir. refl; opens = refl; reads = refl }

unused_id : find_checkpoint "cp" "w" [] ≡ none
unfolding find_checkpoint
unused_id = refl

rollback_patch-apply_patch_example :
    Restored two_files (rollback_patch all_work "w" true patched_world "cp")
rollback_patch-apply_patch_example =
    rollback_patch-apply_patch digest all_work all_work "cp" "w" true true workspace_world
      three_edits true patched digest-IsDigest nothing-IsStored unused_id all_work-Works
      three_edits-ok

-- The deletion of the last file fails.
abbrev b_stuck : Io
b_stuck = machine (λ path. if text_eq path (codes "b") then not_opened else written)

three_edits-err :
    (apply_patch digest b_stuck "cp" "w" true true workspace_world three_edits false true).1
    ≡ err (write_failed (codes "b") "cp")
unfolding apply_patch trim_space
three_edits-err = refl

other_path : Apart b_stuck (write_failed (codes "b") "cp") (codes "a")
unfolding text_eq
other_path rel id e = inr (rw (sym (failed_at e)) refl)
  where
    failed_at : write_failed (codes "b") "cp" ≡ write_failed rel id → codes "b" ≡ rel
    failed_at h = ground (arith, h)

apply_patch-err_example :
    (apply_patch digest b_stuck "cp" "w" true true workspace_world three_edits false
        true).0.disk.files
      (codes "a")
    ≡ two_files (codes "a")
apply_patch-err_example =
    apply_patch-err digest b_stuck "cp" "w" true true workspace_world three_edits false true
      (write_failed (codes "b") "cp") (codes "a") digest-IsDigest nothing-IsStored (λ path. refl)
      three_edits-err other_path
