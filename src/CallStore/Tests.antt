-- ===== src/CallStore/Tests.antt =====
-- The log of tool calls at three rows.
use codebridge.Base.{
  ℕ, ◌≡◌, refl, ◌*◌, ◌≤◌, Bool, true, false, none, some, List, [], ◌∷◌, String, arith, select,
}
use codebridge.Base.Int.{pos}
use codebridge.Base.Text.{Text, codes}
use codebridge.CallStore.{Call, Filter, text_lt, matches, list, prune}
use codebridge.CallStore.Pages.{page, pages, pages-select}

abbrev never_like : Text → Text → Bool
never_like pattern text = false

abbrev call_at : String → String → Bool → ℕ → Call
call_at moment tool success duration_ms = record {
  moment = codes moment;
  request_id = [];
  actor_id = [];
  tool = codes tool;
  device_id = [];
  workspace = [];
  success = success;
  duration_ms = duration_ms;
  error_kind = [];
  args_json = [];
}

abbrev three_rows : List Call
three_rows =
    call_at "12:00:02Z" "bash" true 3
    ∷ call_at "12:00:01Z" "read" false 5
    ∷ call_at "12:00:00Z" "bash" false 8
    ∷ []

abbrev every_call : Filter
every_call = record {
  tool = [];
  actor_id = [];
  device_id = [];
  workspace = [];
  query = [];
  success = none;
  since = none;
  until = none;
  limit = pos 0;
  offset = pos 0;
}

abbrev failed_calls : Filter
failed_calls = record every_call { success = some false }

two_failed : (list never_like failed_calls three_rows).1.total ≡ 2
unfolding list matches
two_failed = refl

average_kept : (list never_like every_call three_rows).1.avg_ms ≡ 5
unfolding list matches
average_kept = refl

-- The later of two moments can have the smaller text.
half_second_first : text_lt (codes "12:00:00.5Z") (codes "12:00:00Z") ≡ true
unfolding text_lt
half_second_first = refl

one_pruned : (prune (codes "12:00:01Z") three_rows).1 ≡ 1
unfolding prune
one_pruned = refl

enough_pages : (list never_like every_call three_rows).1.total ≤ 2 * 2
unfolding list matches
enough_pages = omega arith

pages-select_example :
    (pages never_like every_call three_rows 2 0 2
      ≡ select (matches never_like every_call) three_rows)
    × ((offset : ℕ)
        → (list never_like (page every_call 2 offset) three_rows).1
          ≡ (list never_like every_call three_rows).1)
pages-select_example =
    pages-select never_like every_call three_rows 2 2 (omega arith) (omega arith) enough_pages
