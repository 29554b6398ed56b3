-- ===== src/Hostipc/Frame/Bounds.antt =====
-- What a reader never accepts: frames out of bounds, and frames that the stream cut short.
use codebridge.Base.{
  ℕ, zero, suc, ◌+◌, ◌-◌, ◌^◌, ◌%◌, ◌≤◌, ◌<◌, ◌≡◌, refl, ap, ◌∙◌, true, List, [], ◌∷◌, ◌++◌, arith,
  length, take, drop, length-append, Bool-cases, inl, inr,
}
use native.Mathlib.Decide.{dec_lt}
use codebridge.Hostipc.Frame.{
  FrameKind, json, attachment, Frame, Limits, Reader, closed, Result, ok, err, eof, unexpected_eof,
  read_full, put_uint32, uint32, read_frame, read_sized, read_body, write_frame, split_payload,
  kind_of, flagged, no_eof, attachment_flag, in_bounds, max_for, with_defaults, ◌>>=◌,
}
use codebridge.Hostipc.Frame.Bytes.{length-put_uint32}
use codebridge.Hostipc.Frame.RoundTrip.{
  FitsFlag, write_frame-ok, in_bounds-lt, read_frame-header, header-lt, header-kind, header-size,
  read_sized-in,
}

-- The bytes of a frame after its header.
abbrev pub size_by : FrameKind → Frame → ℕ
size_by json f = length f.payload
size_by attachment f = 4 + length f.payload + length f.attached

abbrev pub size_of : Frame → ℕ
size_of f = size_by f.kind f

length-take-drop :
    (n : ℕ) (xs : List ℕ)
    → n ≤ length xs
    → (length (take n xs) ≡ n) × (length xs ≡ n + length (drop n xs))
length-take-drop zero xs h = omega arith
length-take-drop (suc n) [] h = absurd (omega arith)
length-take-drop (suc n) (x ∷ xs) h = omega (arith, length-take-drop n xs)

-- A body that is cut short is never taken for a frame.
read_body-short :
    (k : FrameKind) (n : ℕ) (p : List ℕ)
    → length p < n
    → read_body (record { bytes = p; ending = closed }) k n ≡ err unexpected_eof
unfolding read_body read_full
read_body-short k n [] h = ground arith
read_body-short k n (b ∷ p) h = ground arith

take-four_more :
    (k n : ℕ) (p : List ℕ) → take (4 + k) (put_uint32 n ++ p) ≡ put_uint32 n ++ take k p
unfolding put_uint32
take-four_more k n p = rw add_four refl
  where
    add_four : 4 + k ≡ suc (suc (suc (suc k)))
    add_four = omega arith

length-take-lt : (k : ℕ) (p : List ℕ) → k < length p → length (take k p) ≡ k
length-take-lt zero p h = refl
length-take-lt (suc k) [] h = absurd (omega arith)
length-take-lt (suc k) (b ∷ p) h = ap suc (length-take-lt k p (omega arith))

header_short :
    (k n : ℕ) (p : List ℕ) (lim : Limits)
    → 0 < k
    → k < 4
    → read_frame (record { bytes = take k (put_uint32 n ++ p); ending = closed }) lim
      ≡ err unexpected_eof
unfolding read_frame read_full put_uint32
header_short zero n p lim a b = absurd (omega arith)
header_short (suc zero) n p lim a b = refl
header_short (suc (suc zero)) n p lim a b = refl
header_short (suc (suc (suc zero))) n p lim a b = refl
header_short (suc (suc (suc (suc k)))) n p lim a b = absurd (omega arith)

-- The stream ends `j` bytes into the body.
cut_in_body :
    (j : ℕ) (kind : FrameKind) (payload : List ℕ) (lim : Limits)
    → length payload < attachment_flag
    → in_bounds lim kind (length payload) ≡ true
    → j < length payload
    → read_frame
        (record {
          bytes = take (4 + j) (put_uint32 (flagged kind (length payload)) ++ payload);
          ending = closed;
        })
        lim
      ≡ err unexpected_eof
cut_in_body j kind payload lim small bounded cut =
    let n = length payload in
    let short : length (take j payload) < n = omega (arith, length-take-lt j payload cut) in
    rw
      (
        take-four_more j (flagged kind n) payload,
        read_frame-header (flagged kind n) (take j payload) closed lim (header-lt kind n small),
        header-kind kind n small,
        header-size kind n small,
        read_sized-in lim kind n (record { bytes = take j payload; ending = closed }) bounded,
      )
      (read_body-short kind n (take j payload) short)

-- When the peer closes inside a frame that `WriteFrame` wrote under bounds below 2^31, after `k` of
-- its bytes and at least one, the reader reports an unexpected end and no frame.
pub read_frame-cut :
    (kind : FrameKind) (payload bytes : List ℕ) (lim : Limits) (k : ℕ)
    → FitsFlag lim
    → write_frame kind payload lim ≡ ok bytes
    → 0 < k
    → k < length bytes
    → read_frame (record { bytes = take k bytes; ending = closed }) lim ≡ err unexpected_eof
read_frame-cut kind payload bytes lim k fits h pos cut =
    let (bounded, written) = write_frame-ok kind payload bytes lim h in
    let small = in_bounds-lt lim kind (length payload) fits bounded in
    let exact : length payload % 2 ^ 32 ≡ length payload = omega arith in
    let whole : length bytes ≡ 4 + length payload =
      ap length written
      ∙ omega (
        arith,
        length-append (put_uint32 (flagged kind (length payload % 2 ^ 32))) payload,
        length-put_uint32 (flagged kind (length payload % 2 ^ 32)),
      ) in
    rw (written, exact)
      (elim (dec_lt k 4) [
        | yes early ↦ header_short k (flagged kind (length payload)) payload lim pos early
        | no late ↦
            let split : k ≡ 4 + (k - 4) = omega arith in
            rw split (cut_in_body (k - 4) kind payload lim small bounded (omega arith))
      ])

read_full-ok :
    (r r' : Reader) (n : ℕ) (xs : List ℕ)
    → read_full r n ≡ ok (xs, r')
    → (length xs ≡ n) × (length r.bytes ≡ n + length r'.bytes) × (r'.ending ≡ r.ending)
unfolding read_full
read_full-ok r r' n xs h = ground (arith, length-take-drop n r.bytes)

split_payload-ok :
    (k : FrameKind) (n : ℕ) (buf : List ℕ) (f : Frame)
    → length buf ≡ n
    → split_payload k n buf ≡ ok f
    → (f.kind ≡ k) × (size_of f ≡ n)
unfolding split_payload
split_payload-ok json n buf f l h = ground arith
split_payload-ok attachment n buf f l h =
    ground (arith, length-take-drop 4 buf, length-take-drop (uint32 (take 4 buf)) (drop 4 buf))

bind-ok :
    {A B : Type 0} {y : B} (first : Result A) (next : A → Result B)
    → (first >>= next) ≡ ok y
    → (x : A) × (first ≡ ok x) × (next x ≡ ok y)
bind-ok (err e) next fails = cc
bind-ok (ok x) next done = (x, refl, done)

no_eof-ok : {A : Type 0} (m : Result A) (a : A) → no_eof m ≡ ok a → m ≡ ok a
no_eof-ok (ok b) a h = h
no_eof-ok (err eof) a h = cc
no_eof-ok (err _) a h = cc

body_done :
    (r r' : Reader) (k : FrameKind) (n : ℕ) (f : Frame)
    → read_body r k n ≡ ok (f, r')
    → (f.kind ≡ k)
      × (size_of f ≡ n)
      × (length r.bytes ≡ n + length r'.bytes)
      × (r'.ending ≡ r.ending)
unfolding read_body
body_done r r' k n f h =
    let ((buf, r1), got, rest) = bind-ok (no_eof (read_full r n)) _ h in
    let full = read_full-ok r r1 n buf (no_eof-ok (read_full r n) (buf, r1) got) in
    let (f', split, last) = bind-ok (split_payload k n buf) _ rest in
    let done = split_payload-ok k n buf f' full.0 split in ground (arith, full, done, last)

sized_done :
    (r r' : Reader) (lim : Limits) (k : FrameKind) (n : ℕ) (f : Frame)
    → read_sized r lim k n ≡ ok (f, r')
    → (m : ℕ) × ((0 < m) × (m ≤ max_for (with_defaults lim) k)) × (read_body r k m ≡ ok (f, r'))
unfolding read_sized
sized_done r r' lim k n f h = elim (Bool-cases (in_bounds lim k n)) [
  | inl e ↦ (n, ground arith, rw e at h)
  | inr e ↦ absurd (ground arith)
]

-- A frame that is read has a size within the bound of its kind, and is not empty; it took its
-- header and that many bytes off the stream.
pub read_frame-bounds :
    (r r' : Reader) (lim : Limits) (f : Frame)
    → read_frame r lim ≡ ok (f, r')
    → (0 < size_of f)
      × (size_of f ≤ max_for (with_defaults lim) f.kind)
      × (length r.bytes ≡ 4 + size_of f + length r'.bytes)
      × (r'.ending ≡ r.ending)
unfolding read_frame
read_frame-bounds r r' lim f h =
    let ((header, r1), got, rest) = bind-ok (read_full r 4) _ h in
    let first = read_full-ok r r1 4 header got in
    let raw = uint32 header in
    let (n, inside, body) = sized_done r1 r' lim (kind_of raw) (raw % attachment_flag) f rest in
    let done = body_done r1 r' (kind_of raw) n f body in ground (arith, first, done, inside)
