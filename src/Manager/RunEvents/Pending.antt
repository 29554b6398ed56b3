-- ===== src/Manager/RunEvents/Pending.antt =====
-- The pending events of a run: what removing one leaves, and what the loop that drains them does.
use codebridge.Base.{
  ℕ, zero, suc, ◌≤◌, ◌<◌, ◌≡◌, refl, sym, ap, ◌∙◌, Bool, true, false, none, some, List, [], ◌∷◌,
  arith, nat_eq, if◌then◌else◌, length, any, Option-cases, inl, inr,
}
use native.Mathlib.Decide.{dec_lt}
use codebridge.Base.Int.{number}
use codebridge.Manager.RunEvents.{RunEvent, RunEventState, find, remove, drain, is_pending}

find-remove :
    {V : Type 0} (k i : ℕ) (m : List (ℕ × V))
    → find i (remove k m) ≡ (if nat_eq k i then none else find i m)
unfolding find remove
find-remove k i [] = ground arith
find-remove k i ((j, v) ∷ m) = ground (arith, find-remove k i m)

length-remove-le : {V : Type 0} (k : ℕ) (m : List (ℕ × V)) → length (remove k m) ≤ length m
unfolding remove
length-remove-le k [] = omega arith
length-remove-le k ((j, v) ∷ m) = ground (arith, length-remove-le k m)

length-remove :
    {V : Type 0} (k : ℕ) (m : List (ℕ × V)) (v : V)
    → find k m ≡ some v
    → length (remove k m) < length m
unfolding find remove
length-remove k [] v h = absurd (ground arith)
length-remove k ((j, w) ∷ m) v h = ground (arith, length-remove k m v, length-remove-le k m)

find-few : {V : Type 0} (k : ℕ) (m : List (ℕ × V)) → length m ≤ 0 → find k m ≡ none
unfolding find
find-few k [] few = refl
find-few k (x ∷ m) few = absurd (omega arith)

-- Whether an event with this number has been taken.
abbrev pub has : ℕ → List ℕ → Bool
has i seqs = any (nat_eq i) seqs

-- The head has every number up to it, and beyond it the pending events are those taken.
pub record IsSound (st : RunEventState) (seqs : List ℕ) : Type 0 where
  pub keyed : (k : ℕ) (e : RunEvent) → find k st.pending ≡ some e → number e.seq ≡ k
  pub below : (i : ℕ) → 1 ≤ i → i ≤ st.head → has i seqs ≡ true
  pub above : (i : ℕ) → st.head < i → is_pending (find i st.pending) ≡ has i seqs

-- The next event is not pending: the head is as high as it can be.
abbrev pub IsDrained : RunEventState → Type 0
IsDrained st = is_pending (find (suc st.head) st.pending) ≡ false

step-IsSound :
    (st : RunEventState) (seqs : List ℕ) (next : RunEvent)
    → find (suc st.head) st.pending ≡ some next
    → IsSound st seqs
    → IsSound
        (record st {
          head = number next.seq;
          pending = remove (suc st.head) st.pending;
          last = some next;
        })
        seqs
step-IsSound st seqs next h v =
    let reached : number next.seq ≡ suc st.head = v.keyed (suc st.head) next h in
    record {
      keyed = λ k e found. v.keyed k e (ground (arith, find-remove (suc st.head) k st.pending));
      below = λ i pos small. elim (dec_lt st.head i) [
        | yes beyond ↦
            let here : i ≡ suc st.head = omega (arith, reached) in
            rw here (sym (v.above (suc st.head) (omega arith)) ∙ ap is_pending h)
        | no within ↦ v.below i pos (omega arith)
      ];
      above = λ i large.
          ground
            (arith, find-remove (suc st.head) i st.pending, v.above i (omega (arith, reached)));
    }

pub drain-IsSound :
    (fuel : ℕ) (st : RunEventState) (seqs : List ℕ)
    → length st.pending ≤ fuel
    → IsSound st seqs
    → IsSound (drain fuel st) seqs × IsDrained (drain fuel st) × (st.head ≤ (drain fuel st).head)
unfolding drain
drain-IsSound zero st seqs few v =
    (v, ap is_pending (find-few (suc st.head) st.pending few), omega arith)
drain-IsSound (suc fuel) st seqs few v = elim (Option-cases (find (suc st.head) st.pending)) [
  | inl e ↦ rw (e, drain) (v, ap is_pending e, omega arith)
  | inr (next, e) ↦
      let st' : RunEventState = record st {
        head = number next.seq;
        pending = remove (suc st.head) st.pending;
        last = some next;
      } in
      let reached = v.keyed (suc st.head) next e in
      let fewer = length-remove (suc st.head) st.pending next e in
      let (sound, drained, up) =
        drain-IsSound fuel st' seqs (omega (arith, fewer)) (step-IsSound st seqs next e v) in
      rw (e, drain) (sound, drained, omega (arith, up, reached))
]
