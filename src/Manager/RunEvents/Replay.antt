-- ===== src/Manager/RunEvents/Replay.antt =====
-- A replay closes the gap that `Missing` reports.
use codebridge.Base.{
  ℕ, suc, ◌+◌, ◌≤◌, ◌≡◌, refl, sym, ap, ◌∙◌, String, true, false, some, List, [], ◌∷◌, arith,
  nat_eq, leb, ltb, str_eq, length, map, Bool-cases, inl, inr,
}
use mathlib.Core.Path.{subst}
use codebridge.Base.Int.{pos, positive}
use codebridge.Manager.RunEvents.{
  RunEvent, RunEventState, Reply, RunEventKey, RunEventBroker, find, is_pending, ingest, state_of,
  run_key, write, accept, head_of, missing, missing_loop, ok, stored,
}
use codebridge.Manager.RunEvents.Contiguous.{
  Delivery, key_eq_self, accept_all, Keeps, IsKept, accept_all-Keeps, accept-Keeps, next-IsKept,
  nothing_yet, nothing_yet-Keeps, taken_of,
}

-- A client's events of one run, in order: the first has the number after `n`.
abbrev pub IsSuffix : String → ℕ → List RunEvent → Type 0
IsSuffix run_id n [] = Unit {0}
IsSuffix run_id n (ev ∷ evs) =
    (ev.run_id ≡ run_id)
    × (ev.seq ≡ pos (suc n))
    × (str_eq ev.kind "" ≡ false)
    × IsSuffix run_id (suc n) evs

abbrev pub sent_by : String → String → RunEvent → Delivery
sent_by account device_id ev = record { account = account; device_id = device_id; event = ev }

ingest-reaches :
    (st : RunEventState) (seqs : List ℕ) (seq : ℕ) (ev : RunEvent)
    → seq ≤ suc st.head
    → IsKept st seqs
    → seq ≤ (ingest st seq ev).0.head
unfolding ingest
ingest-reaches st seqs seq ev near k = elim (Bool-cases (leb seq st.head)) [
  | inl old ↦ rw old (ground arith)
  | inr new ↦
      let here : seq ≡ suc st.head = ground arith in
      let free : is_pending (find seq st.pending) ≡ false =
        ap (λ n. is_pending (find n st.pending)) here ∙ k.1 in
      let next : nat_eq seq (suc st.head) ≡ true = ground arith in
      rw (new, free, next) (next-IsKept st seqs seq ev here k).1
]

stored-head :
    (runs : RunEventBroker) (account device_id run_id : String) (answer : RunEventState × Reply)
    → head_of (stored runs (run_key account device_id run_id) answer).0 account device_id run_id
      ≡ answer.0.head
unfolding head_of write
stored-head runs account device_id run_id (st, reply) =
    rw (key_eq_self (run_key account device_id run_id), head_of) refl

-- An event that the head reaches, on its way through `Accept`.
accept-reaches :
    (runs : RunEventBroker) (seqs : List ℕ) (account device_id : String) (n : ℕ) (ev : RunEvent)
    → str_eq account "" ≡ false
    → str_eq device_id "" ≡ false
    → str_eq ev.run_id "" ≡ false
    → str_eq ev.kind "" ≡ false
    → ev.seq ≡ pos (suc n)
    → n ≤ head_of runs account device_id ev.run_id
    → Keeps runs (run_key account device_id ev.run_id) seqs
    → suc n ≤ head_of (accept runs account device_id ev).0 account device_id ev.run_id
unfolding accept
accept-reaches runs seqs account device_id n ev a d r kind e near k =
    let key = run_key account device_id ev.run_id in
    let reached : n ≤ (state_of (runs key)).head = unfold head_of in near in
    let numbered : positive ev.seq ≡ some (suc n) = ap positive e in
    rw (a, d, r, numbered, kind, stored-head runs account device_id ev.run_id)
      (ingest-reaches (state_of (runs key)) seqs (suc n) ev (omega (arith, reached)) k)

-- The broker knows the run by some numbers taken.
abbrev Tracks : RunEventBroker → RunEventKey → Type 0
Tracks runs key = (seqs : List ℕ) × Keeps runs key seqs

accept_all-reaches :
    (runs : RunEventBroker) (account device_id run_id : String) (n : ℕ) (evs : List RunEvent)
    → str_eq account "" ≡ false
    → str_eq device_id "" ≡ false
    → str_eq run_id "" ≡ false
    → IsSuffix run_id n evs
    → n ≤ head_of runs account device_id run_id
    → Tracks runs (run_key account device_id run_id)
    → n + length evs
      ≤ head_of (accept_all runs (map (sent_by account device_id) evs)) account device_id run_id
unfolding accept_all
accept_all-reaches runs account device_id run_id n [] a d r s near t = omega arith
accept_all-reaches runs account device_id run_id n (ev ∷ evs) a d r (named, e, kind, later) near t =
    let runs' = (accept runs account device_id ev).0 in
    let known : Keeps runs (run_key account device_id ev.run_id) t.0 =
      subst (λ x. Keeps runs (run_key account device_id x) t.0) (sym named) t.1 in
    let close : n ≤ head_of runs account device_id ev.run_id =
      subst (λ x. n ≤ head_of runs account device_id x) (sym named) near in
    let up : suc n ≤ head_of runs' account device_id run_id =
      subst (λ x. suc n ≤ head_of runs' account device_id x) named
        (accept-reaches runs t.0 account device_id n ev a d (ap (λ x. str_eq x "") named ∙ r) kind e
          close known) in
    let t' : Tracks runs' (run_key account device_id run_id) = (
      _,
      accept-Keeps runs (run_key account device_id run_id) t.0 (sent_by account device_id ev) t.1,
    ) in
    let further = accept_all-reaches runs' account device_id run_id (suc n) evs a d r later up t' in
    omega (arith, further)

-- After any deliveries, when a client replays the events of a run from the one after the head, in
-- order, the head comes to the last of them, and `Missing` asks for none of them again.
pub replay-closes :
    (ds : List Delivery) (account device_id run_id : String) (evs : List RunEvent) (status : String)
    → str_eq account "" ≡ false
    → str_eq device_id "" ≡ false
    → str_eq run_id "" ≡ false
    → IsSuffix run_id (head_of (accept_all nothing_yet ds) account device_id run_id) evs
    → let runs = accept_all nothing_yet ds in
      let last = head_of runs account device_id run_id + length evs in
      let runs' = accept_all runs (map (sent_by account device_id) evs) in
      (last ≤ head_of runs' account device_id run_id)
      × (missing runs' account device_id
            (record { run_id = run_id; last_seq = pos last; status = status } ∷ [])
          ≡ ok [])
unfolding missing missing_loop
replay-closes ds account device_id run_id evs status a d r s =
    let runs = accept_all nothing_yet ds in
    let key = run_key account device_id run_id in
    let reached =
      accept_all-reaches runs account device_id run_id (head_of runs account device_id run_id) evs a
        d r s (omega arith)
        (taken_of key ds, accept_all-Keeps nothing_yet key [] ds (nothing_yet-Keeps key)) in
    let runs' = accept_all runs (map (sent_by account device_id) evs) in
    let caught_up : ltb (head_of runs' account device_id run_id)
          (head_of runs account device_id run_id + length evs)
        ≡ false =
      ground (arith, reached) in
    (reached, rw (a, d, r, caught_up) refl)
