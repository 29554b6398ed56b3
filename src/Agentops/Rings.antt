-- ===== src/Agentops/Rings.antt =====
-- internal/agentops/run_manager.go: the rings that keep the last lines and events of a run.
use codebridge.Base.{
  ℕ, zero, suc, ◌%◌, Option, none, some, List, [], ◌∷◌, nat_eq, ltb, if◌then◌else◌, length, set,
  get_elem?,
}

-- `slots` is the array, `next` counts what was written and `kept` how much of it is there.
pub record Ring (A : Type 0) : Type 0 where
  pub slots : List A
  pub next : ℕ
  pub kept : ℕ

unfoldable pub push : {A : Type 0} → Ring A → A → Ring A
push ring x =
    let cap = length ring.slots in
    if nat_eq cap 0 then ring else record {
      slots = set ring.slots (ring.next % cap) x;
      next = suc ring.next;
      kept = if ltb ring.kept cap then suc ring.kept else ring.kept;
    }

abbrev pub cons_if : {A : Type 0} → Option A → List A → List A
cons_if none xs = xs
cons_if (some x) xs = x ∷ xs

-- `for i := start; i < start+n; i++ { ... slots[i%len(slots)] ... }`
unfoldable pub read_slots : {A : Type 0} → List A → ℕ → ℕ → List A
read_slots slots start zero = []
read_slots slots start (suc n) =
    cons_if (get_elem? slots (start % length slots)) (read_slots slots (suc start) n)
