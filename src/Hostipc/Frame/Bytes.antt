-- ===== src/Hostipc/Frame/Bytes.antt =====
-- Lengths in four bytes, and reads of what was just written.
use codebridge.Base.{
  ℕ, ◌^◌, ◌<◌, ◌≡◌, refl, false, List, ◌++◌, arith, ltb, length, take, drop, length-append,
  take-length-append, drop-length-append,
}
use codebridge.Hostipc.Frame.{Ending, ok, read_full, put_uint32, uint32}

pub uint32-put_uint32 : (n : ℕ) (rest : List ℕ) → n < 2 ^ 32 → uint32 (put_uint32 n ++ rest) ≡ n
unfolding uint32 put_uint32
uint32-put_uint32 n rest h = omega arith

pub uint32-put_uint32_self : (n : ℕ) → n < 2 ^ 32 → uint32 (put_uint32 n) ≡ n
unfolding uint32 put_uint32
uint32-put_uint32_self n h = omega arith

pub length-put_uint32 : (n : ℕ) → length (put_uint32 n) ≡ 4
unfolding put_uint32
length-put_uint32 n = refl

pub take-put_uint32 : (n : ℕ) (rest : List ℕ) → take 4 (put_uint32 n ++ rest) ≡ put_uint32 n
unfolding put_uint32
take-put_uint32 n rest = refl

pub drop-put_uint32 : (n : ℕ) (rest : List ℕ) → drop 4 (put_uint32 n ++ rest) ≡ rest
unfolding put_uint32
drop-put_uint32 n rest = refl

not_short : (xs rest : List ℕ) → ltb (length (xs ++ rest)) (length xs) ≡ false
not_short xs rest = ground (arith, length-append xs rest)

-- A read of as many bytes as were written takes just those.
pub read_full-append :
    (xs rest : List ℕ) (e : Ending)
    → read_full (record { bytes = xs ++ rest; ending = e }) (length xs)
      ≡ ok (xs, record { bytes = rest; ending = e })
unfolding read_full
read_full-append xs rest e =
    rw (not_short xs rest, take-length-append xs rest, drop-length-append xs rest) refl
