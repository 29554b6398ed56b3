-- ===== src/Agentops/Checkpoints/Blobs.antt =====
-- The blob store: what storing a content leaves.
use codebridge.Base.{
  ◌≡◌, refl, sym, ap, ◌∙◌, true, false, Option, none, some, arith, if◌then◌else◌, Bool-cases,
  some-inj, if_lem, ◌⊎◌, inl, inr,
}
use codebridge.Base.Text.{Text, text_eq, text_eq_iff, text_eq_self}
use codebridge.Agentops.Edits.{Bytes}
use codebridge.Agentops.Patch.{write_file}
use codebridge.Agentops.Checkpoints.{
  CheckpointFile, Vault, Io, is_blob_name, load_blob, stored_as, store_blob,
}

-- What is used of SHA-256 in hex: the form of its names, and that no two of the files' contents
-- share one.
pub record IsDigest (digest : Bytes → Text) (files : Text → Option Bytes) : Type 0 where
  pub named : (c : Bytes) → is_blob_name (digest c) ≡ true
  pub apart :
      (p q : Text) (c d : Bytes) → files p ≡ some c → files q ≡ some d → digest c ≡ digest d → c ≡ d

pub write_file-at :
    (path : Text) (content : Option Bytes) (files : Text → Option Bytes) (q : Text)
    → write_file path content files q ≡ (if text_eq path q then content else files q)
unfolding write_file
write_file-at path content files q = refl

-- A blob that is there under the digest of a file's content is that content.
abbrev pub IsStored : (Bytes → Text) → (Text → Option Bytes) → (Text → Option Bytes) → Type 0
IsStored digest files blobs =
    (q : Text) (c old : Bytes) → files q ≡ some c → blobs (digest c) ≡ some old → old ≡ c

-- Every blob of the first store is in the second.
abbrev pub Grows : (Text → Option Bytes) → (Text → Option Bytes) → Type 0
Grows blobs more = (name : Text) (c : Bytes) → blobs name ≡ some c → more name ≡ some c

-- The file of a checkpoint says what stood at its path.
abbrev pub Holds : Vault → (Text → Option Bytes) → CheckpointFile → Type 0
Holds vault files f =
    ((f.absent ≡ true) × (files f.path ≡ none))
    ⊎ ((f.absent ≡ false)
        × ((c : Bytes) × (files f.path ≡ some c) × (load_blob vault f.blob ≡ some c)))

abbrev pub Stored :
    (Bytes → Text) → (Text → Option Bytes) → Vault → Bytes → Text → Vault × Option Text → Type 0
Stored digest files vault content name (vault', o) =
    o ≡ some name
    → IsStored digest files vault'.blobs
      × Grows vault.blobs vault'.blobs
      × (load_blob vault' name ≡ some content)
      × (vault'.checkpoints ≡ vault.checkpoints)

module _ (digest : Bytes → Text) (files : Text → Option Bytes) (d : IsDigest digest files) where
  written-IsStored :
      (blobs : Text → Option Bytes) (rel : Text) (content : Bytes)
      → files rel ≡ some content
      → IsStored digest files blobs
      → IsStored digest files (write_file (digest content) (some content) blobs)
  written-IsStored blobs rel content at stored q c old e there =
      elim (Bool-cases (text_eq (digest content) (digest c))) [
        | inl same ↦
            let here : content ≡ old = some-inj (rw (write_file-at, same) at there) in
            sym here
            ∙ d.apart rel q content c at e ((text_eq_iff (digest content) (digest c)).0 same)
        | inr other ↦ stored q c old e (rw (write_file-at, other) at there)
      ]

  written-Grows :
      (blobs : Text → Option Bytes) (content : Bytes)
      → blobs (digest content) ≡ none
      → Grows blobs (write_file (digest content) (some content) blobs)
  written-Grows blobs content free n c there = elim (Bool-cases (text_eq (digest content) n)) [
    | inl same ↦
        let e = ap blobs ((text_eq_iff (digest content) n).0 same) in
        absurd (ground (arith, e, free, there))
    | inr other ↦ rw (write_file-at, other) there
  ]

  found-Stored :
      (io : Io) (vault : Vault) (rel : Text) (content : Bytes) (name : Text) (o : Option Bytes)
      → files rel ≡ some content
      → vault.blobs (digest content) ≡ o
      → IsStored digest files vault.blobs
      → Stored digest files vault content name (stored_as io vault (digest content) content o)
  unfolding load_blob
  found-Stored io vault rel content name (some old) at e stored = λ h.
      let same : old ≡ content = stored rel content old at e in
      (
        stored,
        (λ n c there. there),
        rw (sym (some-inj h), d.named content) (e ∙ ap some same),
        refl,
      )
  found-Stored io vault rel content name none at e stored =
      if_lem (Stored digest files vault content name) (io.blob_saved (digest content)) _ _
        (λ saved h. (
          written-IsStored vault.blobs rel content at stored,
          written-Grows vault.blobs content e,
          rw (sym (some-inj h), d.named content, write_file-at, text_eq_self (digest content)) refl,
          refl,
        ))
        (λ lost h. absurd (ground arith))

  pub store_blob_lem :
      (io : Io) (vault : Vault) (rel : Text) (content : Bytes) (name : Text)
      → files rel ≡ some content
      → IsStored digest files vault.blobs
      → Stored digest files vault content name (store_blob digest io vault content)
  unfolding store_blob
  store_blob_lem io vault rel content name at stored =
      found-Stored io vault rel content name (vault.blobs (digest content)) at refl stored
