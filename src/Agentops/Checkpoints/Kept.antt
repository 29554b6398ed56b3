-- ===== src/Agentops/Checkpoints/Kept.antt =====
-- What a checkpoint keeps: every file that the patch will touch, as it stood.
use codebridge.Base.{
  ℕ, zero, suc, ◌-◌, ◌≤◌, ◌≡◌, refl, sym, ap, ◌∙◌, String, Bool, true, false, not, Option, none,
  some, List, [], ◌∷◌, ◌++◌, map, arith, if◌then◌else◌, if_lem, All, any, length, drop,
  length-append, Bool-cases, some-inj, inl, inr,
}
use mathlib.Core.Path.{subst}
use codebridge.Base.Text.{Text, is_empty, text_eq_self}
use codebridge.Agentops.Edits.{Bytes}
use codebridge.Agentops.Patch.{Disk, PlannedEdit}
use codebridge.Agentops.Checkpoints.{
  CheckpointFile, Checkpoint, Vault, World, Io, is_blob_name, load_blob, store_blob, snapshot,
  snapshots, kept_file, absent_file, with_file, prune_blobs, append_checkpoint, newest, appended,
  create_checkpoint, refers, refers_to,
}
use codebridge.Agentops.Checkpoints.Blobs.{IsDigest, IsStored, Grows, Holds, Stored, store_blob_lem}

load-Grows :
    (vault vault' : Vault) (name : Text) (c : Bytes)
    → Grows vault.blobs vault'.blobs
    → load_blob vault name ≡ some c
    → load_blob vault' name ≡ some c
unfolding load_blob
load-Grows vault vault' name c grows h = elim (Bool-cases (is_blob_name name)) [
  | inl good ↦ rw good (grows name c (rw good at h))
  | inr bad ↦ absurd (ground arith)
]

Holds-Grows :
    (vault vault' : Vault) (files : Text → Option Bytes) (f : CheckpointFile)
    → Grows vault.blobs vault'.blobs
    → Holds vault files f
    → Holds vault' files f
Holds-Grows vault vault' files f grows (inl gone) = inl gone
Holds-Grows vault vault' files f grows (inr (there, (c, e, l))) =
    inr (there, (c, e, load-Grows vault vault' f.blob c grows l))

abbrev Snapped :
    (Bytes → Text) → Vault → (Text → Option Bytes) → Text → Vault × Option CheckpointFile → Type 0
Snapped digest vault files rel (vault', o) =
    (f : CheckpointFile)
    → o ≡ some f
    → IsStored digest files vault'.blobs
      × Grows vault.blobs vault'.blobs
      × (vault'.checkpoints ≡ vault.checkpoints)
      × (f.path ≡ rel)
      × Holds vault' files f

abbrev Snapshots :
    (Bytes → Text)
    → Vault
    → (Text → Option Bytes)
    → List PlannedEdit
    → Vault × Option (List CheckpointFile)
    → Type 0
Snapshots digest vault files planned (vault', o) =
    (fs : List CheckpointFile)
    → o ≡ some fs
    → IsStored digest files vault'.blobs
      × Grows vault.blobs vault'.blobs
      × (vault'.checkpoints ≡ vault.checkpoints)
      × (map (λ f. f.path) fs ≡ map (λ p. p.rel) planned)
      × All (Holds vault' files) fs

module _ (digest : Bytes → Text) (disk : Disk) (d : IsDigest digest disk.files) where
  named-Snapped :
      (vault : Vault) (rel : Text) (content : Bytes) (answer : Vault × Option Text)
      → disk.files rel ≡ some content
      → ((name : Text) → Stored digest disk.files vault content name answer)
      → Snapped digest vault disk.files rel
          (answer.0, elim answer.1 [ none ↦ none | some n ↦ some (kept_file rel n) ])
  named-Snapped vault rel content (vault', none) e stored f h = absurd (ground arith)
  named-Snapped vault rel content (vault', some name) e stored f h =
      let (s, g, l, c) = stored name refl in
      let kept : kept_file rel name ≡ f = some-inj h in
      (
        s,
        g,
        c,
        ap (λ x. x.path) (sym kept),
        subst (Holds vault' disk.files) kept (inr (refl, (content, e, l))),
      )

  snapshot_lem :
      (io : Io) (vault : Vault) (rel : Text) (o : Option Bytes)
      → disk.files rel ≡ o
      → IsStored digest disk.files vault.blobs
      → Snapped digest vault disk.files rel (snapshot digest io disk vault rel o)
  snapshot_lem io vault rel (some content) e stored =
      named-Snapped vault rel content (store_blob digest io vault content) e
        (λ name. store_blob_lem digest disk.files d io vault rel content name e stored)
  snapshot_lem io vault rel none e stored = λ f h. elim (Bool-cases (disk.dirs rel)) [
    | inl directory ↦ absurd (ground arith)
    | inr nothing ↦
        let kept : absent_file rel ≡ f = some-inj (rw nothing at h) in
        (
          stored,
          (λ n c there. there),
          refl,
          ap (λ x. x.path) (sym kept),
          subst (Holds vault disk.files) kept (inl (refl, e)),
        )
  ]

  both-Snapshots :
      (vault : Vault) (p : PlannedEdit) (planned : List PlannedEdit) (vault1 : Vault)
      (f : CheckpointFile) (answer : Vault × Option (List CheckpointFile))
      → Snapped digest vault disk.files p.rel (vault1, some f)
      → Snapshots digest vault1 disk.files planned answer
      → Snapshots digest vault disk.files (p ∷ planned) (with_file f answer)
  both-Snapshots vault p planned vault1 f (vault2, none) first rest fs h = absurd (ground arith)
  both-Snapshots vault p planned vault1 f (vault2, some gs) first rest fs h =
      let (s1, g1, c1, path, holds) = first f refl in
      let (s2, g2, c2, paths, all_hold) = rest gs refl in
      let whole : f ∷ gs ≡ fs = some-inj h in
      (
        s2,
        (λ n c there. g2 n c (g1 n c there)),
        c2 ∙ c1,
        ap (map (λ (x : CheckpointFile). x.path)) (sym whole) ∙ (λ i. path i ∷ paths i),
        subst (All (Holds vault2 disk.files)) whole
            (Holds-Grows vault1 vault2 disk.files f g2 holds, all_hold),
      )

  more-Snapshots :
      (io : Io) (vault : Vault) (p : PlannedEdit) (planned : List PlannedEdit)
      (answer : Vault × Option CheckpointFile)
      → Snapped digest vault disk.files p.rel answer
      → ((vault' : Vault)
          → IsStored digest disk.files vault'.blobs
          → Snapshots digest vault' disk.files planned (snapshots digest io disk vault' planned))
      → Snapshots digest vault disk.files (p ∷ planned) (elim answer.1 [
        | none ↦ (answer.0, none)
        | some f ↦ with_file f (snapshots digest io disk answer.0 planned)
      ])
  more-Snapshots io vault p planned (vault', none) first rest = λ fs h. absurd (ground arith)
  more-Snapshots io vault p planned (vault', some f) first rest =
      both-Snapshots vault p planned vault' f (snapshots digest io disk vault' planned) first
        (rest vault' (first f refl).0)

  snapshots_lem :
      (io : Io) (vault : Vault) (planned : List PlannedEdit)
      → IsStored digest disk.files vault.blobs
      → Snapshots digest vault disk.files planned (snapshots digest io disk vault planned)
  unfolding snapshots
  snapshots_lem io vault [] stored fs h =
      subst
        (λ xs.
          IsStored digest disk.files vault.blobs
          × Grows vault.blobs vault.blobs
          × (vault.checkpoints ≡ vault.checkpoints)
          × (map (λ (f : CheckpointFile). f.path) xs ≡ [])
          × All (Holds vault disk.files) xs)
        (some-inj h) (stored, (λ n c there. there), refl, refl, tt)
  snapshots_lem io vault (p ∷ planned) stored fs h =
      let first = snapshot_lem io vault p.rel (disk.files p.rel) refl stored in
      more-Snapshots io vault p planned _ first (λ vault' s. snapshots_lem io vault' planned s) fs h

drop-append :
    {A : Type 0} (n : ℕ) (xs ys : List A) → n ≤ length xs → drop n (xs ++ ys) ≡ drop n xs ++ ys
drop-append zero xs ys h = refl
drop-append (suc n) [] ys h = absurd (omega arith)
drop-append (suc n) (x ∷ xs) ys h = drop-append n xs ys (omega arith)

any-last :
    {A : Type 0} (p : A → Bool) (xs : List A) (x : A) → p x ≡ true → any p (xs ++ (x ∷ [])) ≡ true
any-last p [] x h = rw h refl
any-last p (y ∷ xs) x h = ground (arith, any-last p xs x h)

-- The newest checkpoints, with one more: the others that stay, and that one.
pub newest-append :
    (cps : List Checkpoint) (cp : Checkpoint)
    → newest (cps ++ (cp ∷ [])) ≡ drop (suc (length cps) - 20) cps ++ (cp ∷ [])
newest-append cps cp =
    let size : length (cps ++ (cp ∷ [])) ≡ suc (length cps) =
      omega (arith, length-append cps (cp ∷ [])) in
    rw size (drop-append (suc (length cps) - 20) cps (cp ∷ []) (omega arith))

named-filled : (name : Text) → is_blob_name name ≡ true → is_empty name ≡ false
unfolding is_blob_name
named-filled [] h = absurd (ground arith)
named-filled (c ∷ name) h = refl

load-pruned :
    (vault : Vault) (kept : List Checkpoint) (saved : List Checkpoint) (name : Text) (c : Bytes)
    → (is_empty name ≡ false → any (refers_to name) kept ≡ true)
    → load_blob vault name ≡ some c
    → load_blob (record { checkpoints = saved; blobs = prune_blobs kept vault.blobs }) name ≡ some c
unfolding load_blob prune_blobs
load-pruned vault kept saved name c used h = elim (Bool-cases (is_blob_name name)) [
  | inl good ↦ rw (good, used (named-filled name good)) (rw good at h)
  | inr bad ↦ absurd (ground arith)
]

Holds-pruned :
    (vault : Vault) (kept saved : List Checkpoint) (files : Text → Option Bytes)
    (fs : List CheckpointFile)
    → ((name : Text)
        → is_empty name ≡ false
        → any (refers name) fs ≡ true
        → any (refers_to name) kept ≡ true)
    → All (Holds vault files) fs
    → All (Holds (record { checkpoints = saved; blobs = prune_blobs kept vault.blobs }) files) fs
Holds-pruned vault kept saved files [] used h = tt
Holds-pruned vault kept saved files (f ∷ fs) used (here, later) = (
  one here,
  Holds-pruned vault kept saved files fs
      (λ name filled more. used name filled (ground (arith, more))) later,
)
  where
    one :
        Holds vault files f
        → Holds (record { checkpoints = saved; blobs = prune_blobs kept vault.blobs }) files f
    one (inl gone) = inl gone
    one (inr (there, (c, e, l))) = inr (
      there,
      (
        c,
        e,
        load-pruned vault kept saved f.blob c
            (λ filled. used f.blob filled (ground (arith, filled, text_eq_self f.blob))) l,
      ),
    )

-- What a checkpoint that was made keeps of the files.
abbrev pub Made :
    (Bytes → Text) → String → String → World → List PlannedEdit → Vault × Option Checkpoint → Type 0
Made digest id workspace world planned (vault', o) =
    (cp : Checkpoint)
    → o ≡ some cp
    → (cp.id ≡ id)
      × (cp.workspace ≡ workspace)
      × (map (λ f. f.path) cp.files ≡ map (λ p. p.rel) planned)
      × All (Holds vault' world.disk.files) cp.files
      × (vault'.checkpoints ≡ newest (world.vault.checkpoints ++ (cp ∷ [])))

new-refers :
    (cps : List Checkpoint) (new : Checkpoint) (name : Text)
    → refers_to name new ≡ true
    → any (refers_to name) (newest (cps ++ (new ∷ []))) ≡ true
new-refers cps new name there =
    rw (newest-append cps new)
      (any-last (refers_to name) (drop (suc (length cps) - 20) cps) new there)

saved-Made :
    (digest : Bytes → Text) (id workspace : String) (world : World) (planned : List PlannedEdit)
    (vault : Vault) (fs : List CheckpointFile)
    → Snapshots digest world.vault world.disk.files planned (vault, some fs)
    → let new : Checkpoint = record { id = id; workspace = workspace; files = fs } in
      let kept = newest (vault.checkpoints ++ (new ∷ [])) in
      Made digest id workspace world planned
        (record { checkpoints = kept; blobs = prune_blobs kept vault.blobs }, some new)
saved-Made digest id workspace world planned vault fs snaps cp h =
    let new : Checkpoint = record { id = id; workspace = workspace; files = fs } in
    let kept = newest (vault.checkpoints ++ (new ∷ [])) in
    let (stored, grows, same, paths, holds) = snaps fs refl in
    subst
      (λ x.
        (x.id ≡ id)
        × (x.workspace ≡ workspace)
        × (map (λ f. f.path) x.files ≡ map (λ p. p.rel) planned)
        × All
            (Holds (record { checkpoints = kept; blobs = prune_blobs kept vault.blobs })
              world.disk.files)
            x.files
        × (kept ≡ newest (world.vault.checkpoints ++ (x ∷ []))))
      (some-inj h)
      (
        refl,
        refl,
        paths,
        Holds-pruned vault kept kept world.disk.files fs
            (λ name filled there. new-refers vault.checkpoints new name there) holds,
        ap (λ cps. newest (cps ++ (new ∷ []))) same,
      )

appended-Made :
    (digest : Bytes → Text) (io : Io) (id workspace : String) (world : World)
    (planned : List PlannedEdit) (answer : Vault × Option (List CheckpointFile))
    → Snapshots digest world.vault world.disk.files planned answer
    → Made digest id workspace world planned (elim answer.1 [
      | none ↦ (answer.0, none)
      | some fs ↦ appended io (record { id = id; workspace = workspace; files = fs }) answer.0
    ])
unfolding append_checkpoint
appended-Made digest io id workspace world planned (vault, none) snaps =
    λ cp h. absurd (ground arith)
appended-Made digest io id workspace world planned (vault, some fs) snaps =
    let new : Checkpoint = record { id = id; workspace = workspace; files = fs } in
    let made = λ (x : Vault × Bool).
      Made digest id workspace world planned (x.0, if x.1 then some new else none) in
    if_lem made (not io.checkpoints_read) _ _ (λ unread cp h. absurd (ground arith))
      (λ read.
        if_lem made io.checkpoints_saved _ _
          (λ saved. saved-Made digest id workspace world planned vault fs snaps)
          (λ unsaved cp h. absurd (ground arith)))

pub create_checkpoint-Made :
    (digest : Bytes → Text) (io : Io) (id workspace : String) (world : World)
    (planned : List PlannedEdit)
    → IsDigest digest world.disk.files
    → IsStored digest world.disk.files world.vault.blobs
    → Made digest id workspace world planned
        (create_checkpoint digest io id workspace world planned)
unfolding create_checkpoint
create_checkpoint-Made digest io id workspace world planned d stored =
    appended-Made digest io id workspace world planned
      (snapshots digest io world.disk world.vault planned)
      (snapshots_lem digest world.disk d io world.vault planned stored)
