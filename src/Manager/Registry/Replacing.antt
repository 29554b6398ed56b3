-- ===== src/Manager/Registry/Replacing.antt =====
-- A device that connects again: the new connection is registered, the old one is closed and answered.
use codebridge.Base.{
  ℕ, ◌<◌, String, true, false, ◌≡◌, ◌≢◌, refl, ap, ◌∙◌, Option, some, arith, nat_eq, nat_eq_iff,
}
use codebridge.Base.Map.{lookup, Each, lookup-insert_self}
use codebridge.Manager.Registry.{with_conn, put, remove}
use codebridge.Manager.Connections.{
  Device, AgentConn, AgentResponse, Registry, new_conn, write_conn, fail_pending, close_conn,
}
use codebridge.Manager.Registry.Delivery.{pending, fail_pending-answers}

-- Connections in the registry are ones that were made.
abbrev pub IsMade : Registry → Type 0
IsMade r = Each (λ id c. c < r.next) r.devices

write_conn-other :
    (r : Registry) (c i : ℕ) (conn : AgentConn)
    → nat_eq c i ≡ false
    → (write_conn r c conn).heap i ≡ r.heap i
unfolding write_conn
write_conn-other r c i conn h = rw h refl

close_conn-pending :
    (r : Registry) (c : ℕ) (id : String) → pending (close_conn r c) c id ≡ pending r c id
unfolding close_conn write_conn
close_conn-pending r c id = rw ((nat_eq_iff c c).1 refl) refl

-- When a device with an older connection registers again, in a registry whose connections were all
-- made by it, its id names the new connection, which has no pending calls, while the older one is
-- closed and has an answer for each of its calls.
pub put-replaces :
    (r : Registry) (dev : Device) (old : ℕ)
    → IsMade r
    → lookup dev.id r.devices ≡ some old
    → let r' = (put r dev).0 in
      (lookup dev.id r'.devices ≡ some (put r dev).1)
      × (r'.heap (put r dev).1 ≡ new_conn dev)
      × ((r'.heap old).closed ≡ true)
      × ((id : String) (o : Option AgentResponse)
          → pending r old id ≡ some o
          → (resp : AgentResponse) × (pending r' old id ≡ some (some resp)))
unfolding put close_conn fail_pending write_conn
put-replaces r dev old made h =
    let stored = with_conn r dev in
    let older : nat_eq r.next old ≡ false =
      ground (arith, made dev.id old h, nat_eq_iff r.next old) in
    let newer : nat_eq old r.next ≡ false =
      ground (arith, made dev.id old h, nat_eq_iff old r.next) in
    rw h (
      lookup-insert_self dev.id r.next r.devices,
      rw (newer, (nat_eq_iff r.next r.next).1 refl) refl,
      rw ((nat_eq_iff old old).1 refl) refl,
      λ id o there.
          let kept : pending stored old id ≡ some o =
            ap (λ conn. lookup id conn.pend) (write_conn-other r r.next old (new_conn dev) older)
            ∙ there in
          let (resp, answered) =
            fail_pending-answers stored old "agent connection replaced" id o kept in
          (
            resp,
            close_conn-pending (fail_pending stored old "agent connection replaced") old id
                ∙ answered,
          ),
    )

-- A disconnect that comes late unregisters nothing: a target that the id no longer names leaves the
-- registered devices as they are.
pub remove-stale :
    (r : Registry) (id : String) (c target : ℕ)
    → lookup id r.devices ≡ some c
    → c ≢ target
    → (remove r id target).devices ≡ r.devices
unfolding remove fail_pending write_conn
remove-stale r id c target h n =
    let other : nat_eq c target ≡ false = ground (arith, nat_eq_iff c target) in rw (h, other) refl
