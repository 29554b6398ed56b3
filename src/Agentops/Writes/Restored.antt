-- ===== src/Agentops/Writes/Restored.antt =====
-- What restoring puts back, and which files the writes of a patch touch.
use codebridge.Base.{
  ◌≡◌, refl, sym, ap, ◌∙◌, true, false, Option, none, some, List, [], ◌∷◌, map, arith, if_lem, All,
  Bool-cases, inl, inr,
}
use mathlib.Core.Path.{subst}
use codebridge.Base.Text.{Text, text_eq, text_eq_iff, text_eq_self}
use codebridge.Agentops.Edits.{Bytes, Action, create, delete, replace}
use codebridge.Agentops.Patch.{PlannedEdit, write_file}
use codebridge.Agentops.Patch.Asked.{among, rels}
use codebridge.Agentops.Checkpoints.{
  CheckpointFile, Checkpoint, Vault, Io, Write, written, not_opened, cut,
}
use codebridge.Agentops.Checkpoints.Blobs.{Holds, write_file-at}
use codebridge.Agentops.Writes.{
  Files, perform, cut_short, restore_file, restore_matching, restore_partial,
}

abbrev pub paths : List CheckpointFile → List Text
paths fs = map (λ f. f.path) fs

-- Every file can be put back.
abbrev pub Restores : Io → Type 0
Restores io = (path : Text) → io.restored path ≡ true

pub write_file-back :
    (path : Text) (content : Option Bytes) (files before : Files) (q : Text)
    → before path ≡ content
    → (files q ≡ before q)
    → write_file path content files q ≡ before q
write_file-back path content files before q e same = elim (Bool-cases (text_eq path q)) [
  | inl here ↦ rw (write_file-at, here) (sym e ∙ ap before ((text_eq_iff path q).0 here))
  | inr other ↦ rw (write_file-at, other) same
]

pub write_file_self :
    (path : Text) (content : Option Bytes) (files : Files)
    → write_file path content files path ≡ content
write_file_self path content files = rw (write_file-at, text_eq_self path) refl

module _ (io : Io) (vault : Vault) (before : Files) (all_restored : Restores io) where
  restore_file-same :
      (f : CheckpointFile) (files : Files) (q : Text)
      → Holds vault before f
      → files q ≡ before q
      → restore_file io vault f files q ≡ before q
  unfolding restore_file
  restore_file-same f files q (inl (gone, e)) same =
      rw (all_restored f.path, gone) (write_file-back f.path none files before q e same)
  restore_file-same f files q (inr (there, (c, e, l))) same =
      rw (all_restored f.path, l, there) (write_file-back f.path (some c) files before q e same)

  restore_file-here :
      (f : CheckpointFile) (files : Files)
      → Holds vault before f
      → restore_file io vault f files f.path ≡ before f.path
  unfolding restore_file
  restore_file-here f files (inl (gone, e)) =
      rw (all_restored f.path, gone) (write_file_self f.path none files ∙ sym e)
  restore_file-here f files (inr (there, (c, e, l))) =
      rw (all_restored f.path, l, there) (write_file_self f.path (some c) files ∙ sym e)

  restore_matching-same :
      (rel : Text) (fs : List CheckpointFile) (files : Files) (q : Text)
      → All (Holds vault before) fs
      → files q ≡ before q
      → restore_matching io vault rel fs files q ≡ before q
  unfolding restore_matching
  restore_matching-same rel [] files q h same = same
  restore_matching-same rel (f ∷ fs) files q (h, hs) same = restore_matching-same rel fs _ q hs (
      if_lem (λ (x : Files). x q ≡ before q) (text_eq f.path rel) _ files
        (λ e. restore_file-same f files q h same) (λ e. same))

  restore_matching-here :
      (rel : Text) (fs : List CheckpointFile) (files : Files)
      → All (Holds vault before) fs
      → among rel (paths fs) ≡ true
      → restore_matching io vault rel fs files rel ≡ before rel
  unfolding restore_matching
  restore_matching-here rel [] files h there = absurd (ground arith)
  restore_matching-here rel (f ∷ fs) files (h, hs) there = elim (Bool-cases (text_eq f.path rel)) [
    | inl e ↦
        let here : restore_file io vault f files rel ≡ before rel =
          subst (λ x. restore_file io vault f files x ≡ before x) ((text_eq_iff f.path rel).0 e)
            (restore_file-here f files h) in
        rw e (restore_matching-same rel fs (restore_file io vault f files) rel hs here)
    | inr e ↦ rw e (restore_matching-here rel fs files hs (rw e at there))
  ]

  pub restore_partial-same :
      (cp : Checkpoint) (applied : List PlannedEdit) (files : Files) (q : Text)
      → All (Holds vault before) cp.files
      → files q ≡ before q
      → restore_partial io vault cp applied files q ≡ before q
  unfolding restore_partial
  restore_partial-same cp [] files q h same = same
  restore_partial-same cp (p ∷ applied) files q h same =
      restore_partial-same cp applied _ q h (restore_matching-same p.rel cp.files files q h same)

  pub restore_partial-here :
      (cp : Checkpoint) (applied : List PlannedEdit) (files : Files) (q : Text)
      → All (Holds vault before) cp.files
      → among q (paths cp.files) ≡ true
      → among q (rels applied) ≡ true
      → restore_partial io vault cp applied files q ≡ before q
  unfolding restore_partial
  restore_partial-here cp [] files q h kept there = absurd (ground arith)
  restore_partial-here cp (p ∷ applied) files q h kept there = elim (Bool-cases (text_eq p.rel q)) [
    | inl e ↦
        let same : p.rel ≡ q = (text_eq_iff p.rel q).0 e in
        restore_partial-same cp applied _ q h (
          subst (λ x. restore_matching io vault x cp.files files q ≡ before q) (sym same)
            (restore_matching-here q cp.files files h kept))
    | inr e ↦ restore_partial-here cp applied _ q h kept (rw e at there)
  ]

-- A write touches its own path alone.
cut_short-other :
    (a : Action) (rel : Text) (part : Bytes) (files : Files) (q : Text)
    → text_eq rel q ≡ false
    → cut_short a rel part files q ≡ files q
cut_short-other delete rel part files q e = refl
cut_short-other create rel part files q e = rw (write_file-at, e) refl
cut_short-other replace rel part files q e = rw (write_file-at, e) refl

pub perform-other :
    (w : Write) (p : PlannedEdit) (files : Files) (q : Text)
    → text_eq p.rel q ≡ false
    → (perform w p files).0 q ≡ files q
unfolding perform
perform-other written p files q e = rw (write_file-at, e) refl
perform-other not_opened p files q e = refl
perform-other (cut part) p files q e = cut_short-other p.action p.rel part files q e
