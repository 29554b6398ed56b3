-- ===== src/Manager/Calls.antt =====
-- internal/manager/registry.go: the calls that wait on a connection. A call is two steps, around the
-- wait: `start_call` up to the write, `finish_call` from the answer or the cancellation on; other
-- steps come in between, but not while `start_call` waits for a slot.
pub mod Slots
use codebridge.Base.{
  ℕ, suc, ◌-◌, String, Bool, true, false, not, Option, none, some, str_eq, ltb, if◌then◌else◌,
}
use codebridge.Base.Map.{Dict, lookup, insert, erase}
use codebridge.Manager.Connections.{
  AgentResponse, Registry, write_conn, offer, Result, conn_for, ok, err, offline_or_unknown,
  cancelled, write_failed, agent_error,
}

-- How the wait for a slot and the write fare: the caller's context may end first, and where no slot
-- is free that is the only way out.
pub data Start : Type 0 where
  sent gives_up fails_to_write : Start

-- The call that waits: its connection and its request id.
pub record Waiting : Type 0 where
  pub conn : ℕ
  pub request_id : String

-- Leaving the call drops its entry and frees its slot.
unfoldable pub leave : Registry → Waiting → Registry
unfolding write_conn
leave r w =
    let conn = r.heap w.conn in
    write_conn r w.conn (record conn { pend = erase w.request_id conn.pend; sem = conn.sem - 1 })

abbrev pub sending : Registry → Waiting → Start → Registry × Result Waiting
sending r w fails_to_write = (leave r w, err write_failed)
sending r w _ = (r, ok w)

-- `print` is `fmt.Sprintf("%d", n)`.
abbrev pub call_of : Registry → (ℕ → String) → ℕ → Waiting
call_of r print c = record { conn = c; request_id = print (suc r.seq) }

-- Entering the call takes a slot and adds its entry.
abbrev pub entered : Registry → Waiting → Registry
entered r w =
    let conn = r.heap w.conn in
    record (write_conn r w.conn
      (record conn { pend = insert w.request_id none conn.pend; sem = suc conn.sem })) {
        seq = suc r.seq;
      }

abbrev pub starting :
    Registry → (ℕ → String) → String → Option ℕ → Start → Registry × Result Waiting
starting r print id none outcome = (r, err (offline_or_unknown id))
starting r print id (some c) gives_up = (r, err cancelled)
starting r print id (some c) outcome =
    if ltb (r.heap c).sem r.max_inflight
    then sending (entered r (call_of r print c)) (call_of r print c) outcome
    else (r, err cancelled)

unfoldable pub start_call :
    Registry → (ℕ → String) → String → String → Start → Registry × Result Waiting
start_call r print account id outcome =
    starting r print id (conn_for r account (lookup id r.devices)) outcome

abbrev pub response : AgentResponse → Result String
response resp =
    if not resp.ok
    then err (agent_error (if str_eq resp.error "" then "agent request failed" else resp.error))
    else ok resp.body

-- What the select takes: `none` while it waits on, unless the caller gives up.
abbrev pub taken : Option (Option AgentResponse) → Bool → Option (Result String)
taken o true = some (err cancelled)
taken (some (some resp)) false = some (response resp)
taken _ false = none

abbrev pub finishing :
    Registry → Waiting → Option (Result String) → Registry × Option (Result String)
finishing r w none = (r, none)
finishing r w (some result) = (leave r w, some result)

unfoldable pub finish_call : Registry → Waiting → Bool → Registry × Option (Result String)
finish_call r w stops = finishing r w (taken (lookup w.request_id (r.heap w.conn).pend) stops)

abbrev pub delivered :
    Dict (Option AgentResponse)
    → String
    → AgentResponse
    → Option (Option AgentResponse)
    → Dict (Option AgentResponse)
delivered pend id resp none = pend
delivered pend id resp (some o) = insert id (offer resp o) pend

unfoldable pub deliver : Registry → ℕ → String → AgentResponse → Registry
unfolding write_conn
deliver r c id resp =
    let conn = r.heap c in
    write_conn r c (record conn { pend = delivered conn.pend id resp (lookup id conn.pend) })
