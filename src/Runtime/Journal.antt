-- ===== src/Runtime/Journal.antt =====
-- internal/runtime/events.go: the journal. The table's rows stand newest first; a query sorts what
-- it selects. `now` is `time.Now()`.
pub mod Appended
pub mod Numbered
pub mod Replay
use codebridge.Base.{
  ℕ, zero, suc, ◌+◌, String, Bool, true, false, ◌&&◌, Option, none, some, List, [], ◌∷◌, str_eq,
  nat_eq, ltb, leb, if◌then◌else◌, select, take, map,
}
use codebridge.Base.Map.{Dict, lookup, insert}
use codebridge.Runtime.Entities.{
  Time, unset, at, is_zero, ms, time_from_ms, Event, Run, require_text, run_id_from_stream,
}
use codebridge.Runtime.Store.{Db, Tx, ◌>>=◌, ◌>>◌, return, check, write, one_of}

unfoldable pub event_times : {S T : Type 0} → (S → T) → Event S → Event T
event_times f e = record {
  pos = e.pos;
  stream = e.stream;
  seq = e.seq;
  moment = f e.moment;
  session_id = e.session_id;
  project_id = e.project_id;
  source = e.source;
  kind = e.kind;
  turn_ref = e.turn_ref;
  correlation_id = e.correlation_id;
  payload = e.payload;
  raw_ref = e.raw_ref;
}

abbrev pub max_or : ℕ → ℕ → ℕ
max_or a b = if ltb a b then b else a

-- `SELECT COALESCE(MAX(seq), 0) FROM events WHERE stream = ?`
unfoldable pub stream_head : String → List (Event ℕ) → ℕ
stream_head stream [] = 0
stream_head stream (e ∷ es) =
    let rest = stream_head stream es in if str_eq e.stream stream then max_or e.seq rest else rest

-- `SELECT COALESCE(MAX(pos), 0) FROM events`
unfoldable pub journal_head : List (Event ℕ) → ℕ
journal_head [] = 0
journal_head (e ∷ es) = max_or e.pos (journal_head es)

-- The defaults for an absent source and timestamp.
unfoldable pub with_defaults : Time → Event Time → Event Time
with_defaults now ev = record ev {
  source = if str_eq ev.source "" then "runtime" else ev.source;
  moment = if is_zero ev.moment then now else ev.moment;
}

abbrev pub sources : List String
sources = "bridge" ∷ "runtime" ∷ "agent" ∷ "computer" ∷ "policy" ∷ "system" ∷ []

-- `UPDATE runs SET last_seq = ? WHERE id = ?`
abbrev pub set_last_seq : ℕ → Option (Run ℕ) → String → Dict (Run ℕ) → Dict (Run ℕ)
set_last_seq seq none id runs = runs
set_last_seq seq (some r) id runs = insert id (record r { last_seq = seq }) runs

unfoldable pub mirror_head : Option String → ℕ → Db → Db
mirror_head none seq db = db
mirror_head (some id) seq db = record db { runs = set_last_seq seq (lookup id db.runs) id db.runs }

-- INSERT takes the next value of the AUTOINCREMENT key.
unfoldable pub insert_event : Event Time → ℕ → Db → Db
unfolding event_times
insert_event ev seq db = record db {
  events = event_times ms (record ev { seq = seq; pos = suc db.last_pos }) ∷ db.events;
  last_pos = suc db.last_pos;
}

unfoldable pub append_checked : Event Time → Tx (Event Time)
unfolding stream_head insert_event mirror_head
append_checked ev db =
    let seq = suc (stream_head ev.stream db.events) in
    (do
      write (λ _. one_of ev.source sources)
          (λ db'. mirror_head (run_id_from_stream ev.stream) seq (insert_event ev seq db'))
      return (record ev { seq = seq; pos = suc db.last_pos }))
      db

unfoldable pub append_event : Time → Event Time → Tx (Event Time)
unfolding append_checked with_defaults
append_event now ev = do
  check (require_text ev.stream)
  check (require_text ev.kind)
  append_checked (with_defaults now ev)

abbrev pub default_event_page : ℕ
default_event_page = 200

abbrev pub max_event_page : ℕ
max_event_page = 500

-- A limit of 0 stands for any that is not positive.
unfoldable pub event_page_limit : ℕ → ℕ
event_page_limit limit =
    if nat_eq limit 0
    then default_event_page
    else (if ltb max_event_page limit then max_event_page else limit)

-- `ORDER BY key`
unfoldable pub insert_by : (Event ℕ → ℕ) → Event ℕ → List (Event ℕ) → List (Event ℕ)
insert_by key e [] = e ∷ []
insert_by key e (x ∷ xs) = if leb (key e) (key x) then e ∷ x ∷ xs else x ∷ insert_by key e xs

unfoldable pub order_by : (Event ℕ → ℕ) → List (Event ℕ) → List (Event ℕ)
order_by key [] = []
order_by key (e ∷ es) = insert_by key e (order_by key es)

-- `scanEvents`
unfoldable pub scan_events : List (Event ℕ) → List (Event Time)
unfolding event_times
scan_events rows = map (event_times time_from_ms) rows

unfoldable pub events_after : Db → ℕ → ℕ → List (Event Time)
unfolding order_by insert_by scan_events event_page_limit
events_after db pos limit =
    scan_events (
      take (event_page_limit limit) (order_by (λ e. e.pos) (select (λ e. ltb pos e.pos) db.events)))

unfoldable pub stream_rows : Db → String → ℕ → List (Event ℕ)
unfolding order_by insert_by
stream_rows db stream after_seq =
    order_by (λ e. e.seq) (select (λ e. str_eq e.stream stream && ltb after_seq e.seq) db.events)

unfoldable pub events_for_stream : Db → String → ℕ → ℕ → List (Event Time)
unfolding stream_rows scan_events event_page_limit
events_for_stream db stream after_seq limit =
    scan_events (take (event_page_limit limit) (stream_rows db stream after_seq))
