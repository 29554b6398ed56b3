-- ===== src/Hostipc/Frame.antt =====
-- internal/hostipc/frame.go: length-prefixed frames, as lists of bytes. A reader is the bytes that
-- still arrive and how the stream ends after them. Go's int has 64 bits, so the 32-bit lengths that
-- are converted to it keep their value. json.Marshal is not modelled: the meta block's JSON is an
-- argument. What is written is the result; that the writer itself fails is not modelled.
pub mod Bytes
pub mod RoundTrip
pub mod Bounds
mod Tests
use codebridge.Base.{
  ℕ, zero, suc, ◌+◌, ◌-◌, ◌*◌, ◌/◌, ◌%◌, ◌^◌, Bool, true, false, ◌||◌, ◌&&◌, leb, Option, none,
  some, List, [], ◌∷◌, ◌++◌, ltb, nat_eq, if◌then◌else◌, length, take, drop,
}

pub data FrameKind : Type 0 where
  json attachment : FrameKind

-- A bound of 0 stands for any bound that is not positive.
pub record Limits : Type 0 where
  pub max_json : ℕ
  pub max_attachment : ℕ

abbrev pub max_json_frame : ℕ
max_json_frame = 2 ^ 20

abbrev pub max_attachment_frame : ℕ
max_attachment_frame = 16 * 2 ^ 20

abbrev pub attachment_flag : ℕ
attachment_flag = 2 ^ 31

unfoldable pub with_defaults : Limits → Limits
with_defaults l = record {
  max_json = if nat_eq l.max_json 0 then max_json_frame else l.max_json;
  max_attachment = if nat_eq l.max_attachment 0 then max_attachment_frame else l.max_attachment;
}

unfoldable pub max_for : Limits → FrameKind → ℕ
max_for l json = l.max_json
max_for l attachment = l.max_attachment

-- How the stream ends: closed by the peer, or by another read error.
pub data Ending : Type 0 where
  closed broken : Ending

pub record Reader : Type 0 where
  pub bytes : List ℕ
  pub ending : Ending

pub data Error : Type 0 where
  eof unexpected_eof read_failed : Error
  frame_limit invalid_request meta_mismatch : Error

-- What a Go function returns beside a nil error, or its error.
pub data Result (A : Type 0) : Type 0 where
  err : Error → Result A
  ok : A → Result A

infixl 5 ◌>>=◌
abbrev pub ◌>>=◌ : {A B : Type 0} → Result A → (A → Result B) → Result B
err reason >>= next = err reason
ok result >>= next = next result

abbrev short_read : Ending → List ℕ → Error
short_read broken bytes = read_failed
short_read closed [] = eof
short_read closed (b ∷ bytes) = unexpected_eof

-- `io.ReadFull` into a buffer of `n` bytes.
unfoldable pub read_full : Reader → ℕ → Result (List ℕ × Reader)
read_full r n =
    if ltb (length r.bytes) n
    then err (short_read r.ending r.bytes)
    else ok (take n r.bytes, record r { bytes = drop n r.bytes })

abbrev pub no_eof : {A : Type 0} → Result A → Result A
no_eof (ok a) = ok a
no_eof (err eof) = err unexpected_eof
no_eof (err e) = err e

-- `binary.BigEndian.PutUint32` and `Uint32`.
unfoldable pub put_uint32 : ℕ → List ℕ
put_uint32 n = (n / 2 ^ 24 % 256) ∷ (n / 2 ^ 16 % 256) ∷ (n / 2 ^ 8 % 256) ∷ (n % 256) ∷ []

unfoldable pub uint32 : List ℕ → ℕ
uint32 (a ∷ b ∷ c ∷ d ∷ _) = a * 2 ^ 24 + b * 2 ^ 16 + c * 2 ^ 8 + d
uint32 _ = 0

pub record Frame : Type 0 where
  pub kind : FrameKind
  pub payload : List ℕ
  pub attached : List ℕ

-- Bit 31 of the header, and the header without it.
abbrev pub kind_of : ℕ → FrameKind
kind_of raw = if ltb raw attachment_flag then json else attachment

unfoldable pub split_payload : FrameKind → ℕ → List ℕ → Result Frame
split_payload json n buf = ok (record { kind = json; payload = buf; attached = [] })
split_payload attachment n buf =
    let meta_len = uint32 (take 4 buf) in
    if ltb n 4
    then err invalid_request
    else (if nat_eq meta_len 0 || ltb (n - 4) meta_len
        then err invalid_request
        else ok (record {
          kind = attachment;
          payload = take meta_len (drop 4 buf);
          attached = drop meta_len (drop 4 buf);
        }))

-- The payload of `n` bytes after the header.
unfoldable pub read_body : Reader → FrameKind → ℕ → Result (Frame × Reader)
read_body r kind n = do
  (buf, r') ← no_eof (read_full r n)
  frame ← split_payload kind n buf
  ok (frame, r')

abbrev pub in_bounds : Limits → FrameKind → ℕ → Bool
in_bounds lim kind n = ltb 0 n && leb n (max_for (with_defaults lim) kind)

unfoldable pub read_sized : Reader → Limits → FrameKind → ℕ → Result (Frame × Reader)
read_sized r lim kind n = if in_bounds lim kind n then read_body r kind n else err frame_limit

unfoldable pub read_frame : Reader → Limits → Result (Frame × Reader)
read_frame r lim = do
  (header, r') ← read_full r 4
  let raw = uint32 header
  read_sized r' lim (kind_of raw) (raw % attachment_flag)

-- `header |= attachmentFlag` on a uint32
abbrev pub flagged : FrameKind → ℕ → ℕ
flagged json header = header
flagged attachment header = if ltb header attachment_flag then header + attachment_flag else header

unfoldable pub write_frame : FrameKind → List ℕ → Limits → Result (List ℕ)
write_frame kind payload lim =
    let n = length payload in
    if in_bounds lim kind n
    then ok (put_uint32 (flagged kind (n % 2 ^ 32)) ++ payload)
    else err frame_limit

unfoldable pub write_json_frame : List ℕ → Limits → Result (List ℕ)
write_json_frame marshalled lim = write_frame json marshalled lim

-- `meta_bytes` is `meta.Bytes`, and `meta_json` the meta block marshalled.
unfoldable pub write_attachment_frame : ℕ → List ℕ → List ℕ → Limits → Result (List ℕ)
write_attachment_frame meta_bytes meta_json attached lim =
    if nat_eq meta_bytes (length attached)
    then write_frame attachment (put_uint32 (length meta_json % 2 ^ 32) ++ (meta_json ++ attached))
        lim
    else err meta_mismatch
