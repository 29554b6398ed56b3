-- ===== src/Agentops/Writes/Applied.antt =====
-- A patch that is applied: what the writes leave.
use codebridge.Base.{
  ◌≡◌, refl, sym, ap, ◌∙◌, String, Bool, true, false, not, Option, none, some, List, [], ◌∷◌, ◌++◌,
  map, arith, if_lem, All,
}
use mathlib.Core.Path.{subst}
use codebridge.Base.Text.{Text}
use codebridge.Agentops.Edits.{Bytes, FileEdit}
use codebridge.Agentops.Patch.{Disk, PlannedEdit, Error, Result, ok, err, plan_edits, rel_of}
use codebridge.Agentops.Patch.Planned.{plan_edits-files}
use codebridge.Agentops.Checkpoints.{Checkpoint, Vault, World, Io, Write, written, not_opened, cut}
use codebridge.Agentops.Checkpoints.Blobs.{IsDigest, IsStored, Holds}
use codebridge.Agentops.Checkpoints.Kept.{Made, create_checkpoint-Made}
use codebridge.Agentops.Writes.{
  Files, ApplyPatchResult, perform, write_all, write_planned, apply_planned, apply_patch,
  call_error, outcome, unless_refused,
}
use codebridge.Agentops.Patch.Asked.{
  among, rels, IsDistinct, PlansAll, Edited, asked_of, plan_edits-Planned,
}
use codebridge.Agentops.Writes.Restored.{perform-other, write_file_self}

perform-done :
    (w : Write) (p : PlannedEdit) (files : Files)
    → (perform w p files).1 ≡ true
    → (perform w p files).0 p.rel ≡ p.new_content
unfolding perform
perform-done written p files h = write_file_self p.rel p.new_content files
perform-done not_opened p files h = absurd (ground arith)
perform-done (cut part) p files h = absurd (ground arith)

-- The files that the writes left: the others are as they were.
abbrev Wrote : List PlannedEdit → Files → Files × Option Text → Type 0
Wrote planned files (files', failed) =
    failed ≡ none → (q : Text) → among q (rels planned) ≡ false → files' q ≡ files q

write_all-other :
    (io : Io) (vault : Vault) (cp : Checkpoint) (applied planned : List PlannedEdit) (files : Files)
    → Wrote planned files (write_all io vault cp applied planned files)
unfolding write_all
write_all-other io vault cp applied [] files = λ done q free. refl
write_all-other io vault cp applied (p ∷ planned) files =
    if_lem (Wrote (p ∷ planned) files) (perform (io.write p.rel) p files).1 _ _
      (λ worked done q free.
        write_all-other io vault cp (applied ++ (p ∷ [])) planned
          (perform (io.write p.rel) p files).0 done q (ground (arith, free))
        ∙ perform-other (io.write p.rel) p files q (ground (arith, free)))
      (λ failed done q free. absurd (ground arith))

abbrev Reached : List PlannedEdit → Files × Option Text → Type 0
Reached planned (files', failed) = failed ≡ none → All (λ p. files' p.rel ≡ p.new_content) planned

write_all-Reached :
    (io : Io) (vault : Vault) (cp : Checkpoint) (applied planned : List PlannedEdit) (files : Files)
    → IsDistinct planned
    → Reached planned (write_all io vault cp applied planned files)
unfolding write_all
write_all-Reached io vault cp applied [] files apart = λ done. tt
write_all-Reached io vault cp applied (p ∷ planned) files (apart, distinct) =
    let applied' = applied ++ (p ∷ []) in
    let files1 = (perform (io.write p.rel) p files).0 in
    if_lem (Reached (p ∷ planned)) (perform (io.write p.rel) p files).1 _ _
      (λ worked done. (
        write_all-other io vault cp applied' planned files1 done p.rel apart
            ∙ perform-done (io.write p.rel) p files worked,
        write_all-Reached io vault cp applied' planned files1 distinct done,
      ))
      (λ failed done. absurd (ground arith))

-- The call wrote the planned edits, with this checkpoint.
pub record Applies (digest : Bytes → Text) (id workspace : String) (world world' : World)
    (planned : List PlannedEdit) : Type 0 where
  pub cp : Checkpoint
  pub made : Made digest id workspace world planned (world'.vault, some cp)
  pub other : (q : Text) → among q (rels planned) ≡ false → world'.disk.files q ≡ world.disk.files q
  pub reached : IsDistinct planned → All (λ p. world'.disk.files p.rel ≡ p.new_content) planned

outcome-ok :
    (planned : List PlannedEdit) (cp : Checkpoint) (o : Option Text) (r : ApplyPatchResult)
    → outcome planned cp o ≡ ok r
    → o ≡ none
outcome-ok planned cp none r h = refl
outcome-ok planned cp (some rel) r h = absurd (ground arith)

abbrev Written :
    (Bytes → Text)
    → String
    → String
    → World
    → List PlannedEdit
    → World × Result ApplyPatchResult
    → Type 0
Written digest id workspace world planned (world', result) =
    (r : ApplyPatchResult) → result ≡ ok r → Applies digest id workspace world world' planned

write_planned-Written :
    (digest : Bytes → Text) (io : Io) (id workspace : String) (world : World)
    (planned : List PlannedEdit) (vault : Vault) (o : Option Checkpoint)
    → Made digest id workspace world planned (vault, o)
    → Written digest id workspace world planned (write_planned io world planned vault o)
write_planned-Written digest io id workspace world planned vault none made =
    λ r h. absurd (ground arith)
write_planned-Written digest io id workspace world planned vault (some cp) made =
    if_lem (Written digest id workspace world planned) (not io.root_opened) _ _
      (λ closed r h. absurd (ground arith))
      (λ opened r h.
        let done =
          outcome-ok planned cp (write_all io vault cp [] planned world.disk.files).1 r h in
        record {
          cp = cp;
          made = made;
          other = write_all-other io vault cp [] planned world.disk.files done;
          reached =
              λ distinct. write_all-Reached io vault cp [] planned world.disk.files distinct done;
        })

-- The planned edits, and what the call did with them.
pub record Done (digest : Bytes → Text) (id workspace : String) (world world' : World)
    (edits : List FileEdit) : Type 0 where
  pub planned : List PlannedEdit
  pub plans : PlansAll world.disk.files edits planned
  pub distinct : IsDistinct planned
  pub applies : Applies digest id workspace world world' planned

abbrev Finishes :
    (Bytes → Text)
    → String
    → String
    → World
    → List FileEdit
    → World × Result ApplyPatchResult
    → Type 0
Finishes digest id workspace world edits (world', result) =
    (r : ApplyPatchResult) → result ≡ ok r → Done digest id workspace world world' edits

planned-Finishes :
    (digest : Bytes → Text) (io : Io) (id workspace : String) (world : World)
    (edits : List FileEdit) (answer : Result (List PlannedEdit))
    → IsDigest digest world.disk.files
    → IsStored digest world.disk.files world.vault.blobs
    → ((ps : List PlannedEdit)
        → answer ≡ ok ps
        → PlansAll world.disk.files edits ps × IsDistinct ps)
    → Finishes digest id workspace world edits
        (apply_planned digest io id workspace false world answer)
planned-Finishes digest io id workspace world edits (err e) d stored plans =
    λ r h. absurd (ground arith)
planned-Finishes digest io id workspace world edits (ok ps) d stored plans = λ r h.
    let made = create_checkpoint-Made digest io id workspace world ps d stored in
    let (all_planned, apart) = plans ps refl in
    record {
      planned = ps;
      plans = all_planned;
      distinct = apart;
      applies = write_planned-Written digest io id workspace world ps _ _ made r h;
    }

-- The directories that planning made do not matter here.
same-files :
    (digest : Bytes → Text) (id workspace : String) (world : World) (disk : Disk)
    (edits : List FileEdit) (answer : World × Result ApplyPatchResult)
    → disk.files ≡ world.disk.files
    → Finishes digest id workspace (record world { disk = disk }) edits answer
    → Finishes digest id workspace world edits answer
same-files digest id workspace world disk edits answer same done r h =
    let c = done r h in
    record {
      planned = c.planned;
      plans = subst (λ fs. PlansAll fs edits c.planned) same c.plans;
      distinct = c.distinct;
      applies = record {
        cp = c.applies.cp;
        made = λ cp e.
            let (i, w, kept, holds, saved) = c.applies.made cp e in
            (i, w, kept, subst (λ fs. All (Holds answer.0.vault fs) cp.files) same holds, saved);
        other = λ q free. c.applies.other q free ∙ ap (λ (fs : Files). fs q) same;
        reached = c.applies.reached;
      };
    }

refused-Finishes :
    (digest : Bytes → Text) (id workspace : String) (world : World) (edits : List FileEdit)
    (o : Option Error) (answer : World × Result ApplyPatchResult)
    → Finishes digest id workspace world edits answer
    → Finishes digest id workspace world edits (unless_refused o world answer)
refused-Finishes digest id workspace world edits (some e) answer done = λ r h. absurd (ground arith)
refused-Finishes digest id workspace world edits none answer done = done

pub apply_patch-Done :
    (digest : Bytes → Text) (io : Io) (id workspace : String) (writable root_allowed : Bool)
    (world : World) (edits : List FileEdit) (confirm : Bool)
    → IsDigest digest world.disk.files
    → IsStored digest world.disk.files world.vault.blobs
    → Finishes digest id workspace world edits
        (apply_patch digest io id workspace writable root_allowed world edits false confirm)
unfolding apply_patch
apply_patch-Done digest io id workspace writable root_allowed world edits confirm d stored =
    let (disk, planned) = plan_edits io.made world.disk [] 0 edits in
    let same : disk.files ≡ world.disk.files = plan_edits-files io.made world.disk [] 0 edits in
    refused-Finishes digest id workspace world edits
      (call_error writable root_allowed edits false confirm) _
      (same-files digest id workspace world disk edits _ same (
        planned-Finishes digest io id workspace (record world { disk = disk }) edits planned
          (subst (IsDigest digest) (sym same) d)
          (subst (λ fs. IsStored digest fs world.vault.blobs) (sym same) stored)
          (λ ps h.
            let (plans, distinct, fresh) = plan_edits-Planned io.made world.disk [] 0 edits ps h in
            (subst (λ fs. PlansAll fs edits ps) (sym same) plans, distinct))))

abbrev pub EditedAll : Files → Files → List FileEdit → Type 0
EditedAll before after [] = Unit {0}
EditedAll before after (e ∷ es) =
    Edited e (before (rel_of e)) (after (rel_of e)) (asked_of e) × EditedAll before after es

all_edited :
    (before after : Files) (edits : List FileEdit) (planned : List PlannedEdit)
    → PlansAll before edits planned
    → All (λ p. after p.rel ≡ p.new_content) planned
    → EditedAll before after edits × (map (λ p. p.rel) planned ≡ map rel_of edits)
all_edited before after [] [] plans reached = (tt, refl)
all_edited before after [] (p ∷ ps) plans reached = absurd plans
all_edited before after (e ∷ es) [] plans reached = absurd plans
all_edited before after (e ∷ es) (p ∷ ps) ((named, edited), plans) (at, reached) =
    let (later, names) = all_edited before after es ps plans reached in
    (
      (
        subst (λ x. Edited e (before x) (after x) (asked_of e)) named
            (subst (λ x. Edited e (before p.rel) x (asked_of e)) (sym at) edited),
        later,
      ),
      λ i. named i ∷ names i,
    )

-- A patch that is applied changed each file that it names as its edit asks: a file that was not
-- there is created, a file with just the old text is deleted, one occurrence of the old text is
-- replaced. Every other file is as it was.
pub apply_patch-ok :
    (digest : Bytes → Text) (io : Io) (id workspace : String) (writable root_allowed : Bool)
    (world : World) (edits : List FileEdit) (confirm : Bool) (r : ApplyPatchResult)
    → IsDigest digest world.disk.files
    → IsStored digest world.disk.files world.vault.blobs
    → (apply_patch digest io id workspace writable root_allowed world edits false confirm).1 ≡ ok r
    → let world' =
        (apply_patch digest io id workspace writable root_allowed world edits false confirm).0 in
      EditedAll world.disk.files world'.disk.files edits
      × ((q : Text) → among q (map rel_of edits) ≡ false → world'.disk.files q ≡ world.disk.files q)
apply_patch-ok digest io id workspace writable root_allowed world edits confirm r d stored h =
    let c =
      apply_patch-Done digest io id workspace writable root_allowed world edits confirm d stored r
        h in
    let (edited, names) = all_edited _ _ edits c.planned c.plans (c.applies.reached c.distinct) in
    (edited, λ q free. c.applies.other q (ap (among q) names ∙ free))
