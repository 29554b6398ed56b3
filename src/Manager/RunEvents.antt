-- ===== src/Manager/RunEvents.antt =====
-- internal/manager/run_events.go: how far the manager has every event of a run. The broker's mutex
-- makes each method one step, and the broker is there (its methods refuse a nil one). A sequence
-- number is an int64 that stays below its largest value, so `head + 1` does not wrap around.
pub mod Pending
pub mod Contiguous
pub mod Replay
use codebridge.Base.{
  ℕ, zero, suc, ◌≤◌, ◌≡◌, String, Bool, true, false, ◌&&◌, ◌||◌, Option, none, some, List, [], ◌∷◌,
  str_eq, nat_eq, ltb, leb, if◌then◌else◌, length,
}
use codebridge.Base.Int.{ℤ, number, positive, natural}

abbrev pub max_pending_run_events : ℕ
max_pending_run_events = 512

abbrev pub max_run_sync_heads : ℕ
max_run_sync_heads = 256

pub record RunEvent : Type 0 where
  pub run_id : String
  pub seq : ℤ
  pub moment : ℕ
  pub source : String
  pub kind : String
  pub payload : String

pub record RunHead : Type 0 where
  pub run_id : String
  pub last_seq : ℤ
  pub status : String

pub record RunReplayCursor : Type 0 where
  pub run_id : String
  pub after_seq : ℕ
  pub through_seq : ℕ

pub record RunEventKey : Type 0 where
  pub account : String
  pub device_id : String
  pub run_id : String

-- The pending map, from sequence numbers.
module _ {V : Type 0} where
  unfoldable pub find : ℕ → List (ℕ × V) → Option V
  find k [] = none
  find k ((j, v) ∷ m) = if nat_eq j k then some v else find k m

  -- `delete(m, k)`
  unfoldable pub remove : ℕ → List (ℕ × V) → List (ℕ × V)
  remove k [] = []
  remove k ((j, v) ∷ m) = if nat_eq j k then remove k m else (j, v) ∷ remove k m

pub record RunEventState : Type 0 where
  pub head : ℕ
  pub pending : List (ℕ × RunEvent)
  pub last : Option RunEvent

abbrev pub RunEventBroker : Type 0
RunEventBroker = RunEventKey → Option RunEventState

pub data Error : Type 0 where
  ids_required run_id_required seq_not_positive kind_required gap_too_large : Error
  too_many_heads invalid_head : Error
  duplicate_head : String → Error

pub data Result {ℓ} (A : Type ℓ) : Type ℓ where
  ok : A → Result A
  err : Error → Result A

-- What `Accept` returns: the head, whether the event was new, and the error.
pub record Reply : Type 0 where
  pub head : ℕ
  pub accepted : Bool
  pub error : Option Error

-- The loop over the pending events that the head reaches. There are at most `fuel` of them.
unfoldable pub drain : ℕ → RunEventState → RunEventState
unfolding find remove
drain zero st = st
drain (suc fuel) st = elim (find (suc st.head) st.pending) [
  | none ↦ st
  | some next ↦ drain fuel (record st {
    head = number next.seq;
    pending = remove (suc st.head) st.pending;
    last = some next;
  })
]

abbrev pub told : RunEventState → Bool → Option Error → RunEventState × Reply
told st accepted error = (st, record { head = st.head; accepted = accepted; error = error })

abbrev pub advanced : RunEventState → ℕ → RunEvent → RunEventState
advanced st seq ev = drain (length st.pending) (record st { head = seq; last = some ev })

abbrev pub is_pending : Option RunEvent → Bool
is_pending none = false
is_pending (some ev) = true

-- `Accept` on the state of the run, with the event's number.
unfoldable pub ingest : RunEventState → ℕ → RunEvent → RunEventState × Reply
unfolding find drain
ingest st seq ev =
    if leb seq st.head
    then told st false none
    else if is_pending (find seq st.pending)
    then told st false none
    else if nat_eq seq (suc st.head)
    then told (advanced st seq ev) true none
    else if leb max_pending_run_events (length st.pending)
    then told st false (some gap_too_large)
    else told (record st { pending = (seq, ev) ∷ st.pending }) true none

unfoldable pub key_eq : RunEventKey → RunEventKey → Bool
key_eq a b =
    str_eq a.account b.account && str_eq a.device_id b.device_id && str_eq a.run_id b.run_id

abbrev pub run_key : String → String → String → RunEventKey
run_key account device_id run_id = record {
  account = account;
  device_id = device_id;
  run_id = run_id;
}

abbrev pub fresh : RunEventState
fresh = record { head = 0; pending = []; last = none }

abbrev pub state_of : Option RunEventState → RunEventState
state_of none = fresh
state_of (some st) = st

unfoldable pub write : RunEventKey → RunEventState → RunEventBroker → RunEventBroker
unfolding key_eq
write key st runs k = if key_eq key k then some st else runs k

abbrev pub refused : RunEventBroker → Error → RunEventBroker × Reply
refused runs e = (runs, record { head = 0; accepted = false; error = some e })

abbrev pub stored : RunEventBroker → RunEventKey → RunEventState × Reply → RunEventBroker × Reply
stored runs key (st, reply) = (write key st runs, reply)

abbrev pub accept_numbered :
    RunEventBroker → String → String → RunEvent → Option ℕ → RunEventBroker × Reply
accept_numbered runs account device_id ev none = refused runs seq_not_positive
accept_numbered runs account device_id ev (some seq) =
    let key = run_key account device_id ev.run_id in
    if str_eq ev.kind ""
    then refused runs kind_required
    else stored runs key (ingest (state_of (runs key)) seq ev)

unfoldable pub accept : RunEventBroker → String → String → RunEvent → RunEventBroker × Reply
unfolding ingest write
accept runs account device_id ev =
    if str_eq account ""
    then refused runs ids_required
    else if str_eq device_id ""
    then refused runs ids_required
    else if str_eq ev.run_id ""
    then refused runs run_id_required
    else accept_numbered runs account device_id ev (positive ev.seq)

unfoldable pub head_of : RunEventBroker → String → String → String → ℕ
head_of runs account device_id run_id = (state_of (runs (run_key account device_id run_id))).head

abbrev last_event : RunEventState → Option RunEvent
last_event st = if nat_eq st.head 0 then none else st.last

unfoldable pub last_of : RunEventBroker → String → String → String → Option RunEvent
last_of runs account device_id run_id =
    last_event (state_of (runs (run_key account device_id run_id)))

abbrev among : String → List String → Bool
among run_id [] = false
among run_id (s ∷ seen) = str_eq s run_id || among run_id seen

abbrev pub cursor_if :
    Bool → RunReplayCursor → Result (List RunReplayCursor) → Result (List RunReplayCursor)
cursor_if b c (err e) = err e
cursor_if true c (ok cs) = ok (c ∷ cs)
cursor_if false c (ok cs) = ok cs

-- The loop of `Missing` over the advertised heads.
unfoldable pub missing_loop :
    RunEventBroker → String → String → List RunHead → List String → Result (List RunReplayCursor)
unfolding head_of
missing_loop runs account device_id [] seen = ok []
missing_loop runs account device_id (h ∷ heads) seen =
    let rest = missing_loop runs account device_id heads (h.run_id ∷ seen) in
    let manager_head = head_of runs account device_id h.run_id in
    if str_eq h.run_id "" then err invalid_head else elim (natural h.last_seq) [
      | none ↦ err invalid_head
      | some last_seq ↦
          if among h.run_id seen
          then err (duplicate_head h.run_id)
          else cursor_if (ltb manager_head last_seq)
              (record { run_id = h.run_id; after_seq = manager_head; through_seq = last_seq }) rest
    ]

unfoldable pub missing :
    RunEventBroker → String → String → List RunHead → Result (List RunReplayCursor)
unfolding missing_loop
missing runs account device_id heads =
    if str_eq account ""
    then err ids_required
    else if str_eq device_id ""
    then err ids_required
    else if ltb max_run_sync_heads (length heads)
    then err too_many_heads
    else missing_loop runs account device_id heads []
