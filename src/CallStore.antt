-- ===== src/CallStore.antt =====
-- internal/mcpcallstore/store.go: the log of tool calls. The newest row is first. A time is kept as
-- its RFC3339Nano text, and SQLite compares these texts; `like` is its LIKE.
pub mod Pages
mod Tests
use codebridge.Base.{
  ℕ, suc, ◌+◌, ◌*◌, ◌/◌, Bool, true, false, ◌&&◌, ◌||◌, not, Option, none, some, List, [], ◌∷◌,
  ◌++◌, nat_eq, ltb, if◌then◌else◌, length, take, drop, select,
}
use codebridge.Base.Int.{ℤ, pos, negsuc, positive, natural}
use codebridge.Base.Text.{Text, codes, is_empty, text_eq, trim_space}

pub record Call : Type 0 where
  pub moment : Text
  pub request_id : Text
  pub actor_id : Text
  pub tool : Text
  pub device_id : Text
  pub workspace : Text
  pub success : Bool
  pub duration_ms : ℕ
  pub error_kind : Text
  pub args_json : Text

-- The times are `none` where they are zero.
pub record Filter : Type 0 where
  pub tool : Text
  pub actor_id : Text
  pub device_id : Text
  pub workspace : Text
  pub query : Text
  pub success : Option Bool
  pub since : Option Text
  pub until : Option Text
  pub limit : ℤ
  pub offset : ℤ

pub record Stats : Type 0 where
  pub total : ℕ
  pub failed : ℕ
  pub avg_ms : ℕ
  pub total_ms : ℕ

abbrev pub max_args_bytes : ℕ
max_args_bytes = 16 * 1024

-- The arguments are bytes; the mark is the UTF-8 of an ellipsis and "(truncated)".
abbrev pub truncated_mark : Text
truncated_mark = 226 ∷ 128 ∷ 166 ∷ codes "(truncated)"

unfoldable pub truncate_args : Text → Text
truncate_args args =
    if ltb max_args_bytes (length args) then take max_args_bytes args ++ truncated_mark else args

unfoldable pub insert : Call → List Call → List Call
unfolding truncate_args
insert call rows = record call { args_json = truncate_args call.args_json } ∷ rows

-- The comparison of two texts, byte by byte.
unfoldable pub text_lt : Text → Text → Bool
text_lt s [] = false
text_lt [] (d ∷ t) = true
text_lt (c ∷ s) (d ∷ t) = let rest = text_lt s t in if nat_eq c d then rest else ltb c d

abbrev pub same_or_any : Text → Text → Bool
same_or_any wanted value = is_empty wanted || text_eq value wanted

abbrev bool_eq : Bool → Bool → Bool
bool_eq a b = if a then b else not b

abbrev pub success_or_any : Option Bool → Bool → Bool
success_or_any none value = true
success_or_any (some wanted) value = bool_eq wanted value

abbrev pub not_before : Option Text → Text → Bool
not_before none value = true
not_before (some since) value = not (text_lt value since)

abbrev pub not_after : Option Text → Text → Bool
not_after none value = true
not_after (some until) value = not (text_lt until value)

abbrev pub query_or_any : (Text → Text → Bool) → Text → Call → Bool
query_or_any like query c =
    let part = codes "%" ++ (query ++ codes "%") in
    is_empty query
    || like part c.tool
    || like part c.device_id
    || like part c.workspace
    || like part c.request_id
    || like part c.actor_id
    || like part c.error_kind

-- The WHERE clause of filterSQL.
unfoldable pub matches : (Text → Text → Bool) → Filter → Call → Bool
unfolding text_eq text_lt trim_space
matches like f c =
    same_or_any f.tool c.tool
    && same_or_any f.actor_id c.actor_id
    && same_or_any f.device_id c.device_id
    && same_or_any f.workspace c.workspace
    && success_or_any f.success c.success
    && not_before f.since c.moment
    && not_after f.until c.moment
    && query_or_any like (trim_space f.query) c

abbrev pub limit_of : Option ℕ → ℕ
limit_of none = 100
limit_of (some n) = if ltb 500 n then 100 else n

abbrev pub offset_of : Option ℕ → ℕ
offset_of none = 0
offset_of (some n) = n

unfoldable pub failures : List Call → ℕ
failures [] = 0
failures (c ∷ rows) = if c.success then failures rows else suc (failures rows)

unfoldable pub duration : List Call → ℕ
duration [] = 0
duration (c ∷ rows) = c.duration_ms + duration rows

-- The average of no rows is 0.
unfoldable pub stats : List Call → Stats
unfolding failures duration
stats rows = record {
  total = length rows;
  failed = failures rows;
  avg_ms = if nat_eq (length rows) 0 then 0 else duration rows / length rows;
  total_ms = duration rows;
}

unfoldable pub list : (Text → Text → Bool) → Filter → List Call → List Call × Stats
unfolding matches stats
list like f rows =
    let found = select (matches like f) rows in
    (take (limit_of (positive f.limit)) (drop (offset_of (natural f.offset)) found), stats found)

abbrev pub is_old : Text → Call → Bool
is_old older_than c = text_lt c.moment older_than

-- The rows that stay, and how many were removed.
unfoldable pub prune : Text → List Call → List Call × ℕ
unfolding text_lt
prune older_than rows =
    (select (λ c. not (is_old older_than c)) rows, length (select (is_old older_than) rows))
