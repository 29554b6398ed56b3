-- ===== src/Agentops/Edits.antt =====
-- internal/agentops/write.go: what one edit of a patch asks for. A text is the list of its bytes.
pub mod Replaced
use codebridge.Base.{
  ℕ, zero, suc, ◌-◌, Bool, true, false, ◌&&◌, ◌||◌, not, Option, none, some, List, [], ◌∷◌, ◌++◌,
  nat_eq, ltb, leb, if◌then◌else◌, length, drop, any,
}
use codebridge.Base.Text.{Text, has_prefix}

abbrev pub Bytes : Type 0
Bytes = List ℕ

-- `path` is the text of code points.
pub record FileEdit : Type 0 where
  pub path : Text
  pub old_text : Bytes
  pub new_text : Bytes

pub data Action : Type 0 where
  create delete replace : Action

-- `none` where neither text is set.
unfoldable pub action_of : Bytes → Bytes → Option Action
action_of [] [] = none
action_of [] (n ∷ new) = some create
action_of (o ∷ old) [] = some delete
action_of (o ∷ old) (n ∷ new) = some replace

-- `strings.Count(s, old)` for a text that is not empty; `skip` bytes of a match are still to pass.
unfoldable pub count_from : Bytes → ℕ → Bytes → ℕ
unfolding has_prefix
count_from old skip [] = 0
count_from old (suc skip) (c ∷ s) = count_from old skip s
count_from old zero (c ∷ s) =
    let found = suc (count_from old (length old - 1) s) in
    let rest = count_from old 0 s in if has_prefix (c ∷ s) old then found else rest

unfoldable pub count : Bytes → Bytes → ℕ
unfolding count_from
count s old = count_from old 0 s

-- `strings.Replace(s, old, new, 1)` for an `old` that is not empty.
unfoldable pub replace_first : Bytes → Bytes → Bytes → Bytes
unfolding has_prefix
replace_first old new [] = []
replace_first old new (c ∷ s) =
    let rest = c ∷ replace_first old new s in
    if has_prefix (c ∷ s) old then new ++ drop (length old) (c ∷ s) else rest

-- How many bytes follow the first byte of a rune, and between which bounds the next one lies.
pub record Lead : Type 0 where
  pub more : ℕ
  pub low : ℕ
  pub high : ℕ

abbrev pub ends : ℕ → ℕ → ℕ → Option Lead
ends more low high = some (record { more = more; low = low; high = high })

abbrev pub lead : ℕ → Option Lead
lead b =
    if ltb b 0x80
    then ends 0 0 0
    else if ltb b 0xc2
    then none
    else if ltb b 0xe0
    then ends 1 0x80 0xbf
    else if nat_eq b 0xe0
    then ends 2 0xa0 0xbf
    else if nat_eq b 0xed
    then ends 2 0x80 0x9f
    else if ltb b 0xf0
    then ends 2 0x80 0xbf
    else if nat_eq b 0xf0
    then ends 3 0x90 0xbf
    else if ltb b 0xf4
    then ends 3 0x80 0xbf
    else if nat_eq b 0xf4
    then ends 3 0x80 0x8f
    else none

-- `utf8.ValidString`, with `more` bytes of a rune to come.
unfoldable pub valid_from : ℕ → ℕ → ℕ → Bytes → Bool
valid_from zero low high [] = true
valid_from (suc more) low high [] = false
valid_from zero low high (b ∷ s) = elim (lead b) [
  | none ↦ false
  | some l ↦ valid_from l.more l.low l.high s
]
valid_from (suc more) low high (b ∷ s) = leb low b && leb b high && valid_from more 0x80 0xbf s

unfoldable pub valid_string : Bytes → Bool
unfolding valid_from
valid_string s = valid_from 0 0 0 s

-- Binary content is refused.
unfoldable pub is_binary : Bytes → Bool
unfolding valid_string
is_binary s = not (valid_string s) || any (nat_eq 0) s
