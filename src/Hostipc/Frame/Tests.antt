-- ===== src/Hostipc/Frame/Tests.antt =====
-- The theorems on frames at short frames.
use codebridge.Base.{ℕ, ◌+◌, ◌<◌, ◌≤◌, ◌≢◌, ◌≡◌, refl, List, [], ◌∷◌, ◌++◌, arith, take}
use codebridge.Hostipc.Frame.{
  json, Frame, Limits, Reader, closed, ok, err, unexpected_eof, put_uint32, uint32, read_full,
  read_frame, read_sized, read_body, split_payload, write_frame, write_json_frame,
  write_attachment_frame, with_defaults, max_for,
}
use codebridge.Hostipc.Frame.RoundTrip.{FitsFlag, read_frame-write_json_frame}
use codebridge.Hostipc.Frame.Bounds.{size_of, read_frame-cut, read_frame-bounds}

abbrev no_limits : Limits
no_limits = record { max_json = 0; max_attachment = 0 }

no_limits-FitsFlag : FitsFlag no_limits
unfolding with_defaults
no_limits-FitsFlag = record { json_fits = omega arith; attachment_fits = omega arith }

abbrev small_json : List ℕ
small_json = 123 ∷ 125 ∷ []

abbrev json_bytes : List ℕ
json_bytes = 0 ∷ 0 ∷ 0 ∷ 2 ∷ small_json

json_written : write_json_frame small_json no_limits ≡ ok json_bytes
unfolding write_json_frame write_frame with_defaults max_for put_uint32
json_written = refl

read_frame-write_json_frame_example :
    read_frame (record { bytes = json_bytes ++ (7 ∷ []); ending = closed }) no_limits
    ≡ ok (
      record { kind = json; payload = small_json; attached = [] },
      record { bytes = 7 ∷ []; ending = closed },
    )
read_frame-write_json_frame_example =
    read_frame-write_json_frame small_json json_bytes (7 ∷ []) closed no_limits no_limits-FitsFlag
      json_written

abbrev attachment_bytes : List ℕ
attachment_bytes = 128 ∷ 0 ∷ 0 ∷ 7 ∷ 0 ∷ 0 ∷ 0 ∷ 2 ∷ 123 ∷ 125 ∷ 9 ∷ []

attachment_written : write_attachment_frame 1 small_json (9 ∷ []) no_limits ≡ ok attachment_bytes
unfolding write_attachment_frame write_frame with_defaults max_for put_uint32
attachment_written = refl

has_meta : small_json ≢ []
has_meta e = ground arith

frame_written : write_frame json small_json no_limits ≡ ok json_bytes
unfolding write_frame with_defaults max_for put_uint32
frame_written = refl

read_frame-cut_example :
    read_frame (record { bytes = take 5 json_bytes; ending = closed }) no_limits
    ≡ err unexpected_eof
read_frame-cut_example =
    read_frame-cut json small_json json_bytes no_limits 5 no_limits-FitsFlag frame_written
      (omega arith) (omega arith)

abbrev small_frame : Frame
small_frame = record { kind = json; payload = small_json; attached = [] }

abbrev whole_stream : Reader
whole_stream = record { bytes = json_bytes; ending = closed }

abbrev empty_stream : Reader
empty_stream = record { bytes = []; ending = closed }

json_read : read_frame whole_stream no_limits ≡ ok (small_frame, empty_stream)
unfolding read_frame read_full uint32 read_sized read_body split_payload with_defaults max_for
json_read = refl

read_frame-bounds_example :
    (0 < size_of small_frame)
    × (size_of small_frame ≤ max_for (with_defaults no_limits) json)
    × (6 ≡ 4 + size_of small_frame + 0)
    × (closed ≡ closed)
read_frame-bounds_example =
    read_frame-bounds whole_stream empty_stream no_limits small_frame json_read
