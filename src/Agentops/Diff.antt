-- ===== src/Agentops/Diff.antt =====
-- internal/agentops/write.go: the preview of a planned edit. A hunk is kept as its four numbers and
-- its lines; their rendering as text is not modelled.
pub mod Located
use codebridge.Base.{
  ℕ, zero, suc, ◌+◌, ◌-◌, Bool, true, false, ◌||◌, Option, none, some, List, [], ◌∷◌, ◌++◌, nat_eq,
  ltb, if◌then◌else◌, length, take, drop, min_of,
}
use codebridge.Base.Text.{Text, is_empty, text_eq, trim_suffix}
use codebridge.Agentops.Paths.{split_on, reversed}
use codebridge.Agentops.Edits.{Bytes, Action, create, delete, replace}

-- `strings.Split(strings.TrimSuffix(content, "\\n"), "\\n")`
unfoldable pub split_lines : Bytes → List Bytes
unfolding split_on trim_suffix
split_lines content = if is_empty content then [] else split_on 10 (trim_suffix content 10)

-- The first loop: how many lines at the front are the same.
unfoldable pub same_front : List Bytes → List Bytes → ℕ
unfolding text_eq
same_front [] new = 0
same_front (a ∷ old) [] = 0
same_front (a ∷ old) (b ∷ new) =
    let more = suc (same_front old new) in if text_eq a b then more else 0

-- The second loop walks both lists from their ends, and stops where the common front ends.
unfoldable pub same_back : ℕ → List Bytes → List Bytes → ℕ
unfolding same_front reversed
same_back prefix old new =
    same_front (reversed (drop prefix old) []) (reversed (drop prefix new) [])

-- The first changed line, how many old lines the change covers, and how many replace them.
pub record Span : Type 0 where
  pub start : ℕ
  pub removed : ℕ
  pub added : ℕ

unfoldable pub locate_changed_lines : List Bytes → List Bytes → Span
unfolding same_front same_back
locate_changed_lines old new =
    let prefix = same_front old new in
    let suffix = same_back prefix old new in
    record {
      start = prefix;
      removed = length old - prefix - suffix;
      added = length new - prefix - suffix;
    }

unfoldable pub removed_lines : List Bytes → ℕ → ℕ → List Bytes
removed_lines lines start n =
    if nat_eq n 0 || ltb (length lines) (start + n) then [] else take n (drop start lines)

pub record Hunk : Type 0 where
  pub rel : Text
  pub old_start : ℕ
  pub old_count : ℕ
  pub new_start : ℕ
  pub new_count : ℕ
  pub before : List Bytes
  pub removed : List Bytes
  pub added : List Bytes
  pub after : List Bytes

abbrev pub diff_context_lines : ℕ
diff_context_lines = 3

abbrev pub replace_hunk : Text → List Bytes → List Bytes → Span → Hunk
replace_hunk rel old new span =
    let from = span.start - diff_context_lines in
    let to = min_of (span.start + span.removed + diff_context_lines) (length old) in
    let changed = take span.added (drop span.start new) in
    record {
      rel = rel;
      old_start = from + 1;
      old_count = to - from;
      new_start = from + 1;
      new_count = from + length changed;
      before = take (span.start - from) (drop from old);
      removed = removed_lines old span.start span.removed;
      added = changed;
      after = take (to - (span.start + span.removed)) (drop (span.start + span.removed) old);
    }

-- The lines of a content that is not there are none.
abbrev lines_of : Option Bytes → List Bytes
lines_of none = []
lines_of (some content) = split_lines content

unfoldable pub edit_diff : Text → Action → Option Bytes → Option Bytes → Hunk
unfolding split_lines locate_changed_lines removed_lines
edit_diff rel create old new =
    let lines = lines_of new in
    record {
      rel = rel;
      old_start = 0;
      old_count = 0;
      new_start = 1;
      new_count = length lines;
      before = [];
      removed = [];
      added = lines;
      after = [];
    }
edit_diff rel delete old new =
    let lines = lines_of old in
    record {
      rel = rel;
      old_start = 1;
      old_count = length lines;
      new_start = 0;
      new_count = 0;
      before = [];
      removed = lines;
      added = [];
      after = [];
    }
edit_diff rel replace old new =
    replace_hunk rel (lines_of old) (lines_of new)
      (locate_changed_lines (lines_of old) (lines_of new))
