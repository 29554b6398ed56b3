-- ===== src/Manager/Registry/Delivery.antt =====
-- Answers to pending calls: the first one stays, and a lost connection answers every call.
use codebridge.Base.{
  ℕ, String, ◌≡◌, refl, ap, ◌∙◌, Option, none, some, [], ◌∷◌, arith, str_eq, eq_iff, nat_eq_iff,
  str_eq_refl, if◌then◌else◌,
}
use codebridge.Base.Map.{Dict, lookup, lookup-insert}
use codebridge.Manager.Calls.{deliver, delivered}
use codebridge.Manager.Connections.{
  AgentConn, AgentResponse, Registry, offer, offer_all, failure, fail_pending, write_conn,
}

-- What the pending call of a request id holds: no call, no answer yet, or an answer.
abbrev pub pending : Registry → ℕ → String → Option (Option AgentResponse)
pending r c id = lookup id (r.heap c).pend

abbrev pub offered :
    (resp : AgentResponse) → Option (Option AgentResponse) → Option (Option AgentResponse)
offered resp none = none
offered resp (some o) = some (offer resp o)

lookup-offer_all :
    (resp : AgentResponse) (id : String) (pend : Dict (Option AgentResponse))
    → lookup id (offer_all resp pend) ≡ offered resp (lookup id pend)
unfolding lookup offer_all
lookup-offer_all resp id [] = refl
lookup-offer_all resp id ((j, o) ∷ pend) = ground (arith, lookup-offer_all resp id pend)

pub write_conn_self :
    (r : Registry) (c : ℕ) (conn : AgentConn) → (write_conn r c conn).heap c ≡ conn
unfolding write_conn
write_conn_self r c conn = rw ((nat_eq_iff c c).1 refl) refl

lookup-delivered :
    (pend : Dict (Option AgentResponse)) (id j : String) (resp : AgentResponse)
    (o : Option (Option AgentResponse))
    → lookup id pend ≡ o
    → lookup j (delivered pend id resp o)
      ≡ (if str_eq id j then offered resp (lookup id pend) else lookup j pend)
lookup-delivered pend id j resp none h = ground (arith, eq_iff id j)
lookup-delivered pend id j resp (some o) h = rw h (lookup-insert id j (offer resp o) pend)

-- An answer reaches the call that waits for its request id; where one is there already, or no call
-- waits, nothing changes, and neither does any other call of the connection.
pub deliver-pending :
    (r : Registry) (c : ℕ) (id j : String) (resp : AgentResponse)
    → pending (deliver r c id resp) c j
      ≡ (if str_eq id j then offered resp (pending r c id) else pending r c j)
unfolding deliver
deliver-pending r c id j resp =
    ap (λ conn. lookup j conn.pend) (write_conn_self r c _)
    ∙ lookup-delivered (r.heap c).pend id j resp (lookup id (r.heap c).pend) refl

offered-twice :
    (first second : AgentResponse) (o : Option (Option AgentResponse))
    → offered second (offered first o) ≡ offered first o
offered-twice first second none = refl
offered-twice first second (some none) = refl
offered-twice first second (some (some old)) = refl

-- A second answer to the same request is dropped.
deliver-first :
    (r : Registry) (c : ℕ) (id : String) (first second : AgentResponse)
    → pending (deliver (deliver r c id first) c id second) c id
      ≡ pending (deliver r c id first) c id
deliver-first r c id first second =
    deliver-pending (deliver r c id first) c id id second
    ∙ rw (str_eq_refl id, deliver-pending r c id id first, str_eq_refl id)
        (offered-twice first second (pending r c id))

offer-some :
    (resp : AgentResponse) (o : Option AgentResponse)
    → (answer : AgentResponse) × (offer resp o ≡ some answer)
offer-some resp none = (resp, refl)
offer-some resp (some old) = (old, refl)

-- When a connection fails, every call that waits on it has an answer.
pub fail_pending-answers :
    (r : Registry) (c : ℕ) (message id : String) (o : Option AgentResponse)
    → pending r c id ≡ some o
    → (resp : AgentResponse) × (pending (fail_pending r c message) c id ≡ some (some resp))
unfolding fail_pending
fail_pending-answers r c message id o h =
    let now : pending (fail_pending r c message) c id ≡ some (offer (failure message) o) =
      ap (λ conn. lookup id conn.pend) (write_conn_self r c _)
      ∙ lookup-offer_all (failure message) id (r.heap c).pend
      ∙ rw h refl in
    let (resp, answered) = offer-some (failure message) o in (resp, now ∙ ap some answered)
