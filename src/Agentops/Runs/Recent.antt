-- ===== src/Agentops/Runs/Recent.antt =====
-- A ring of the last lines against the list of all lines.
use codebridge.Base.{
  String, ℕ, zero, suc, ◌+◌, ◌-◌, ◌%◌, ◌≤◌, ◌<◌, ◌≡◌, ◌≢◌, refl, sym, ap, ◌∙◌, false, some, List,
  [], ◌∷◌, ◌++◌, arith, nat_eq, ltb, min_of, nat_eq_iff, if◌then◌else◌, length, set, get_elem?,
  drop, map, ◌&&◌, length-set, length-append,
}
use native.Mathlib.Nat.{mod-add-mod, mod-lt, mod-eq_of_lt, mod-eq-sub-mod}
use native.Mathlib.Decide.{dec_lt}
use mathlib.Core.Path.{subst}
use mathlib.Core.List.{append_assoc, append-nil}
use codebridge.Runtime.Entities.{Time, is_terminal}
use codebridge.Agentops.Runs.{RunState, append_runtime_event, record_event, recent_events}
use codebridge.Agentops.Rings.{Ring, push, read_slots, cons_if}

-- `ring` of `cap` slots has seen the lines `seen`, and its slots hold the last `cap` of them.
pub record IsRing {A : Type 0} (ring : Ring A) (seen : List A) : Type 0 where
  pub room : 0 < length ring.slots
  pub count : ring.next ≡ length seen
  pub fill : ring.kept ≡ min_of (length seen) (length ring.slots)
  pub held :
      (i : ℕ)
      → i < length seen
      → length seen ≤ i + length ring.slots
      → get_elem? ring.slots (i % length ring.slots) ≡ get_elem? seen i

mod-apart_add : (i d c : ℕ) → 0 < d → d < c → (i + d) % c ≢ i % c
mod-apart_add i d c pos small same =
    let r = i % c in
    let less : r < c = mod-lt i (omega arith) in
    let sum : (r + d) % c ≡ (i + d) % c = mod-add-mod i c d in
    elim (dec_lt (r + d) c) [
      | yes below ↦ omega (arith, mod-eq_of_lt below, sum, same)
      | no above ↦
          let wrapped : (r + d) % c ≡ (r + d - c) % c = mod-eq-sub-mod (omega arith) in
          let small_again : (r + d - c) % c ≡ r + d - c = mod-eq_of_lt (omega arith) in
          omega (arith, wrapped, small_again, sum, same)
    ]

mod-apart : (i j c : ℕ) → i < j → j < i + c → j % c ≢ i % c
mod-apart i j c less near same =
    let split : i + (j - i) ≡ j = omega arith in
    mod-apart_add i (j - i) c (omega arith) (omega arith) (ap (λ n. n % c) split ∙ same)

module _ {A : Type 0} where
  get_elem?-set_self :
      (xs : List A) (i : ℕ) (x : A) → i < length xs → get_elem? (set xs i x) i ≡ some x
  get_elem?-set_self [] i x h = absurd (omega arith)
  get_elem?-set_self (y ∷ xs) zero x h = refl
  get_elem?-set_self (y ∷ xs) (suc i) x h = get_elem?-set_self xs i x (omega arith)

  get_elem?-set_other :
      (xs : List A) (i j : ℕ) (x : A) → i ≢ j → get_elem? (set xs i x) j ≡ get_elem? xs j
  get_elem?-set_other [] i j x n = refl
  get_elem?-set_other (y ∷ xs) zero zero x n = absurd (n refl)
  get_elem?-set_other (y ∷ xs) zero (suc j) x n = refl
  get_elem?-set_other (y ∷ xs) (suc i) zero x n = refl
  get_elem?-set_other (y ∷ xs) (suc i) (suc j) x n =
      get_elem?-set_other xs i j x (λ e. n (ap suc e))

  get_elem?-append :
      (xs ys : List A) (i : ℕ) → i < length xs → get_elem? (xs ++ ys) i ≡ get_elem? xs i
  get_elem?-append [] ys i h = absurd (omega arith)
  get_elem?-append (x ∷ xs) ys zero h = refl
  get_elem?-append (x ∷ xs) ys (suc i) h = get_elem?-append xs ys i (omega arith)

  get_elem?-last : (xs : List A) (x : A) → get_elem? (xs ++ (x ∷ [])) (length xs) ≡ some x
  get_elem?-last [] x = refl
  get_elem?-last (y ∷ xs) x = get_elem?-last xs x

  get_elem?-drop :
      (xs : List A) (i : ℕ) → i < length xs → cons_if (get_elem? xs i) (drop (suc i) xs) ≡ drop i xs
  get_elem?-drop [] i h = absurd (omega arith)
  get_elem?-drop (x ∷ xs) zero h = refl
  get_elem?-drop (x ∷ xs) (suc i) h = get_elem?-drop xs i (omega arith)

  drop-all : (xs : List A) (n : ℕ) → length xs ≤ n → drop n xs ≡ []
  drop-all [] zero h = refl
  drop-all [] (suc n) h = refl
  drop-all (x ∷ xs) zero h = absurd (omega arith)
  drop-all (x ∷ xs) (suc n) h = drop-all xs n (omega arith)

-- One more line, in a ring of at least one slot.
pub push-IsRing :
    {A : Type 0} (ring : Ring A) (seen : List A) (x : A)
    → IsRing ring seen
    → IsRing (push ring x) (seen ++ (x ∷ []))
unfolding push
push-IsRing ring seen x v =
    let cap = length ring.slots in
    let some_room : nat_eq cap 0 ≡ false = ground (arith, v.room, nat_eq_iff cap 0) in
    let n = length seen in
    let place = ring.next % cap in
    let inside : place < cap = mod-lt ring.next v.room in
    let more : length (seen ++ (x ∷ [])) ≡ suc n = omega (arith, length-append seen (x ∷ [])) in
    let same_cap : length (set ring.slots place x) ≡ cap = length-set ring.slots place x in
    rw some_room (record {
      room = omega (arith, same_cap, v.room);
      count = omega (arith, more, v.count);
      fill = ground (arith, same_cap, v.fill, more);
      held = λ i before near. rw same_cap (elim (dec_lt i n) [
        | yes old ↦
            get_elem?-set_other ring.slots place (i % cap) x (
              mod-apart i ring.next cap (omega (arith, v.count))
                (omega (arith, v.count, near, more, same_cap)))
            ∙ v.held i old (omega (arith, near, more, same_cap))
            ∙ sym (get_elem?-append seen (x ∷ []) i old)
        | no new ↦
            let here : i ≡ n = omega (arith, before, more) in
            rw (here, sym v.count)
              (get_elem?-set_self ring.slots place x inside
                ∙ sym (get_elem?-last seen x)
                ∙ ap (get_elem? (seen ++ (x ∷ []))) (sym v.count))
      ]);
    })

-- The slots from `start` on are the lines from `start` on.
pub read_slots-drop :
    {A : Type 0} (ring : Ring A) (seen : List A) (start n : ℕ)
    → IsRing ring seen
    → start + n ≡ length seen
    → n ≤ length ring.slots
    → read_slots ring.slots start n ≡ drop start seen
unfolding read_slots
read_slots-drop ring seen start zero v all fits = sym (drop-all seen start (omega arith))
read_slots-drop ring seen start (suc n) v all fits =
    rw
      (
        v.held start (omega arith) (omega arith),
        read_slots-drop ring seen (suc start) n v (omega arith) (omega arith),
      )
      (get_elem?-drop seen start (omega arith))

-- What a run has recorded: all its lines, and how many.
pub record HasLines (rs : RunState) (lines : List String) : Type 0 where
  pub ring : IsRing rs.events lines
  pub total : rs.event_total ≡ length lines

-- The executor reports its lines one after the other.
unfoldable pub record_all : RunState → List (Time × String) → RunState
record_all rs [] = rs
record_all rs ((now, line) ∷ lines) = record_all (record_event rs now line) lines

record_event-HasLines :
    (rs : RunState) (seen : List String) (now : Time) (line : String)
    → is_terminal rs.status ≡ false
    → HasLines rs seen
    → HasLines (record_event rs now line) (seen ++ (line ∷ []))
      × (is_terminal (record_event rs now line).status ≡ false)
unfolding record_event append_runtime_event
record_event-HasLines rs seen now line live v = rw live (
  record {
    ring = push-IsRing rs.events seen line v.ring;
    total = omega (arith, v.total, length-append seen (line ∷ []));
  },
  live,
)

record_all-HasLines :
    (rs : RunState) (seen : List String) (lines : List (Time × String))
    → is_terminal rs.status ≡ false
    → HasLines rs seen
    → HasLines (record_all rs lines) (seen ++ map (λ l. l.1) lines)
unfolding record_all
record_all-HasLines rs seen [] live v = subst (HasLines rs) (sym (append-nil seen)) v
record_all-HasLines rs seen ((now, line) ∷ lines) live v =
    let (next, still) = record_event-HasLines rs seen now line live v in
    subst (HasLines (record_all (record_event rs now line) lines))
      (append_assoc seen (line ∷ []) (map (λ l. l.1) lines))
      (record_all-HasLines (record_event rs now line) (seen ++ (line ∷ [])) lines still next)

-- How many lines `Events` gives of `total` recorded in `capacity` slots.
abbrev pub page : ℕ → ℕ → ℕ → ℕ
page limit total capacity =
    let kept = min_of total capacity in if ltb 0 limit && ltb limit kept then limit else kept

recent-HasLines :
    (rs : RunState) (seen : List String) (limit : ℕ)
    → HasLines rs seen
    → recent_events rs limit
      ≡ drop (length seen - page limit (length seen) (length (rs.events).slots)) seen
unfolding recent_events
recent-HasLines rs seen limit v =
    let cap = length (rs.events).slots in
    let n = page limit (length seen) cap in
    let small : n ≤ length seen = ground arith in
    let fits : n ≤ cap = ground arith in
    rw (v.ring.fill, v.total)
      (read_slots-drop rs.events seen (length seen - n) n v.ring (omega (arith, small)) fits)

-- After any number of lines on a run that has none yet and is not over, `Events` gives the last of
-- them, oldest first: as many as asked for, or as the ring keeps when none or too many are.
pub recent_events-record_all :
    (rs : RunState) (lines : List (Time × String)) (limit : ℕ)
    → is_terminal rs.status ≡ false
    → HasLines rs []
    → let texts = map (λ l. l.1) lines in
      let rs' = record_all rs lines in
      recent_events rs' limit
      ≡ drop (length texts - page limit (length texts) (length (rs'.events).slots)) texts
recent_events-record_all rs lines limit live v =
    recent-HasLines (record_all rs lines) (map (λ l. l.1) lines) limit
      (record_all-HasLines rs [] lines live v)
