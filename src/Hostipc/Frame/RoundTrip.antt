-- ===== src/Hostipc/Frame/RoundTrip.antt =====
-- A frame that was written is the frame that is read.
use codebridge.Base.{
  ℕ, ◌+◌, ◌^◌, ◌%◌, ◌<◌, ◌≡◌, ◌≢◌, refl, ap, ◌∙◌, true, List, [], ◌∷◌, ◌++◌, arith, length,
  length-append, take-length-append, drop-length-append,
}
use codebridge.Hostipc.Frame.{
  FrameKind, json, attachment, Frame, Limits, Reader, Ending, Result, ok, put_uint32, uint32,
  read_frame, read_sized, read_body, write_frame, write_json_frame, write_attachment_frame,
  split_payload, kind_of, flagged, attachment_flag, in_bounds, max_for, with_defaults, ◌>>=◌,
}
use mathlib.Core.List.{append_assoc}
use codebridge.Hostipc.Frame.Bytes.{
  uint32-put_uint32_self, take-put_uint32, drop-put_uint32, read_full-append, length-put_uint32,
}

-- Bounds that leave the flag bit free.
pub record FitsFlag (lim : Limits) : Type 0 where
  pub json_fits : (with_defaults lim).max_json < attachment_flag
  pub attachment_fits : (with_defaults lim).max_attachment < attachment_flag

max-lt :
    (lim : Limits) (k : FrameKind) → FitsFlag lim → max_for (with_defaults lim) k < attachment_flag
unfolding max_for
max-lt lim json f = f.json_fits
max-lt lim attachment f = f.attachment_fits

pub header-kind : (k : FrameKind) (n : ℕ) → n < attachment_flag → kind_of (flagged k n) ≡ k
header-kind json n h = ground arith
header-kind attachment n h = ground arith

pub header-size : (k : FrameKind) (n : ℕ) → n < attachment_flag → flagged k n % attachment_flag ≡ n
header-size json n h = ground arith
header-size attachment n h = ground arith

pub header-lt : (k : FrameKind) (n : ℕ) → n < attachment_flag → flagged k n < 2 ^ 32
header-lt json n h = ground arith
header-lt attachment n h = ground arith

pub in_bounds-lt :
    (lim : Limits) (k : FrameKind) (n : ℕ)
    → FitsFlag lim
    → in_bounds lim k n ≡ true
    → n < attachment_flag
in_bounds-lt lim k n fits h = ground (arith, max-lt lim k fits)

pub read_sized-in :
    (lim : Limits) (k : FrameKind) (n : ℕ) (r : Reader)
    → in_bounds lim k n ≡ true
    → read_sized r lim k n ≡ read_body r k n
unfolding read_sized
read_sized-in lim k n r h = rw h refl

pub write_frame-ok :
    (k : FrameKind) (p bytes : List ℕ) (lim : Limits)
    → write_frame k p lim ≡ ok bytes
    → (in_bounds lim k (length p) ≡ true)
      × (bytes ≡ put_uint32 (flagged k (length p % 2 ^ 32)) ++ p)
unfolding write_frame
write_frame-ok k p bytes lim h = ground arith

abbrev pub after_header : Limits → List ℕ × Reader → Result (Frame × Reader)
after_header lim (header, r) =
    read_sized r lim (kind_of (uint32 header)) (uint32 header % attachment_flag)

pub read_frame-header :
    (raw : ℕ) (rest : List ℕ) (e : Ending) (lim : Limits)
    → raw < 2 ^ 32
    → read_frame (record { bytes = put_uint32 raw ++ rest; ending = e }) lim
      ≡ read_sized (record { bytes = rest; ending = e }) lim (kind_of raw) (raw % attachment_flag)
unfolding read_frame put_uint32
read_frame-header raw rest e lim h =
    ap (λ r. r >>= after_header lim) (read_full-append (put_uint32 raw) rest e)
    ∙ ap
        (λ n.
          read_sized (record { bytes = rest; ending = e }) lim (kind_of n) (n % attachment_flag))
        (uint32-put_uint32_self raw h)

read_body-written :
    (k : FrameKind) (p rest : List ℕ) (e : Ending)
    → read_body (record { bytes = p ++ rest; ending = e }) k (length p)
      ≡ (split_payload k (length p) p >>= λ f. ok (f, record { bytes = rest; ending = e }))
unfolding read_body
read_body-written k p rest e = rw (read_full-append p rest e) refl

-- Whatever `WriteFrame` wrote, the reader takes its header and payload apart again.
read_frame-written :
    (k : FrameKind) (p bytes rest : List ℕ) (e : Ending) (lim : Limits)
    → FitsFlag lim
    → write_frame k p lim ≡ ok bytes
    → read_frame (record { bytes = bytes ++ rest; ending = e }) lim
      ≡ (split_payload k (length p) p >>= λ f. ok (f, record { bytes = rest; ending = e }))
read_frame-written k p bytes rest e lim fits h =
    let (bounded, written) = write_frame-ok k p bytes lim h in
    let small : length p < attachment_flag = in_bounds-lt lim k (length p) fits bounded in
    let exact : length p % 2 ^ 32 ≡ length p = omega arith in
    rw (written, exact, append_assoc (put_uint32 (flagged k (length p))) p rest)
      (rw
        (
          read_frame-header (flagged k (length p)) (p ++ rest) e lim (header-lt k (length p) small),
          header-kind k (length p) small,
          header-size k (length p) small,
        )
        (rw (read_sized-in lim k (length p) (record { bytes = p ++ rest; ending = e }) bounded)
          (read_body-written k p rest e)))

-- Under bounds below 2^31, a JSON frame that `WriteJSONFrame` wrote is read back whole, whatever
-- follows it.
pub read_frame-write_json_frame :
    (marshalled bytes rest : List ℕ) (e : Ending) (lim : Limits)
    → FitsFlag lim
    → write_json_frame marshalled lim ≡ ok bytes
    → read_frame (record { bytes = bytes ++ rest; ending = e }) lim
      ≡ ok (
        record { kind = json; payload = marshalled; attached = [] },
        record { bytes = rest; ending = e },
      )
unfolding write_json_frame split_payload
read_frame-write_json_frame marshalled bytes rest e lim fits h =
    read_frame-written json marshalled bytes rest e lim fits h

length-payload :
    (n : ℕ) (meta attached : List ℕ)
    → length (put_uint32 n ++ (meta ++ attached)) ≡ 4 + (length meta + length attached)
length-payload n meta attached = omega (
  arith,
  length-append (put_uint32 n) (meta ++ attached),
  length-put_uint32 n,
  length-append meta attached,
)

length-pos : (xs : List ℕ) → xs ≢ [] → 0 < length xs
length-pos [] h = absurd (h refl)
length-pos (x ∷ xs) h = omega arith

split_payload-attachment :
    (meta attached : List ℕ)
    → meta ≢ []
    → length meta < 2 ^ 32
    → let p = put_uint32 (length meta) ++ (meta ++ attached) in
      split_payload attachment (length p) p
      ≡ ok (record { kind = attachment; payload = meta; attached = attached })
unfolding split_payload
split_payload-attachment meta attached m h =
    let size = length-payload (length meta) meta attached in
    rw (take-put_uint32, uint32-put_uint32_self (length meta) h, drop-put_uint32, size)
      (rw (take-length-append meta attached, drop-length-append meta attached)
        (ground (arith, length-pos meta m)))

-- Under bounds below 2^31, an attachment frame that was written with a meta block that is not empty
-- is read back as this meta block and its data, whatever follows it.
pub read_frame-write_attachment_frame :
    (meta attached bytes rest : List ℕ) (e : Ending) (lim : Limits)
    → FitsFlag lim
    → meta ≢ []
    → write_attachment_frame (length attached) meta attached lim ≡ ok bytes
    → read_frame (record { bytes = bytes ++ rest; ending = e }) lim
      ≡ ok (
        record { kind = attachment; payload = meta; attached = attached },
        record { bytes = rest; ending = e },
      )
unfolding write_attachment_frame
read_frame-write_attachment_frame meta attached bytes rest e lim fits m h =
    let n = length meta in
    let written : write_frame attachment (put_uint32 (n % 2 ^ 32) ++ (meta ++ attached)) lim
        ≡ ok bytes =
      ground arith in
    let bounded = write_frame-ok attachment _ bytes lim written in
    let small = in_bounds-lt lim attachment _ fits bounded.0 in
    let exact : n % 2 ^ 32 ≡ n = omega (arith, length-payload (n % 2 ^ 32) meta attached) in
    read_frame-written attachment _ bytes rest e lim fits written
    ∙ rw exact (
        rw
          (split_payload-attachment meta attached m
            (omega (arith, length-payload (n % 2 ^ 32) meta attached)))
          refl)
