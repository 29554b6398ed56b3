-- ===== src/Manager/RunEvents/Contiguous.antt =====
-- The head of a run after any deliveries: the longest run of numbers from 1 that have arrived.
use codebridge.Base.{
  ℕ, zero, suc, ◌≤◌, ◌<◌, ◌≡◌, refl, sym, ap, ◌∙◌, String, Bool, true, false, ◌&&◌, Option, none,
  some, List, [], ◌∷◌, arith, nat_eq, nat_eq_iff, some-inj, leb, str_eq, eq_iff, if◌then◌else◌,
  length, Bool-cases, inl, inr, if_lem,
}
use native.Mathlib.Decide.{dec_lt}
use mathlib.Core.Path.{subst}
use codebridge.Base.Int.{ℤ, pos, negsuc, number, positive}
use codebridge.Manager.RunEvents.{
  RunEvent, RunEventState, RunEventKey, RunEventBroker, Error, Reply, find, is_pending, ingest,
  advanced, state_of, key_eq, run_key, write, accept, head_of, max_pending_run_events, refused,
  stored, accept_numbered, seq_not_positive, kind_required, ids_required, run_id_required,
}
use codebridge.Manager.RunEvents.Pending.{has, IsSound, IsDrained, drain-IsSound}

abbrev pub IsKept : RunEventState → List ℕ → Type 0
IsKept st seqs = IsSound st seqs × IsDrained st

abbrev pub taken : Reply → Bool
taken reply = elim reply.error [ none ↦ true | some e ↦ false ]

-- The numbers taken, with this one if there was no error.
abbrev pub with_taken : Bool → ℕ → List ℕ → List ℕ
with_taken b seq seqs = if b then seq ∷ seqs else seqs

again-IsKept :
    (st : RunEventState) (seqs : List ℕ) (seq : ℕ)
    → has seq seqs ≡ true
    → IsKept st seqs
    → IsKept st (seq ∷ seqs)
again-IsKept st seqs seq there (v, d) = (
  record {
    keyed = v.keyed;
    below = λ i one small. ground (arith, v.below i one small);
    above = λ i large. ground (arith, v.above i large, there, nat_eq_iff i seq);
  },
  d,
)

pub next-IsKept :
    (st : RunEventState) (seqs : List ℕ) (seq : ℕ) (ev : RunEvent)
    → seq ≡ suc st.head
    → IsKept st seqs
    → IsKept (advanced st seq ev) (seq ∷ seqs) × (seq ≤ (advanced st seq ev).head)
next-IsKept st seqs seq ev next (v, d) =
    let st' : RunEventState = record st { head = seq; last = some ev } in
    let sound : IsSound st' (seq ∷ seqs) = record {
      keyed = v.keyed;
      below = λ i one small. elim (dec_lt st.head i) [
        | yes beyond ↦ ground arith
        | no within ↦ ground (arith, v.below i one (omega arith))
      ];
      above = λ i large. ground (arith, v.above i (omega arith));
    } in
    let (w, drained, up) = drain-IsSound (length st.pending) st' (seq ∷ seqs) (omega arith) sound in
    ((w, drained), up)

held-IsKept :
    (st : RunEventState) (seqs : List ℕ) (seq : ℕ) (ev : RunEvent)
    → number ev.seq ≡ seq
    → suc st.head < seq
    → IsKept st seqs
    → IsKept (record st { pending = (seq, ev) ∷ st.pending }) (seq ∷ seqs)
unfolding find
held-IsKept st seqs seq ev named far (v, d) = (
  record {
    keyed = λ k e found. elim (Bool-cases (nat_eq seq k)) [
      | inl same ↦
          let here : ev ≡ e = some-inj (rw same at found) in
          ap (λ x. number x.seq) (sym here) ∙ named ∙ (nat_eq_iff seq k).0 same
      | inr other ↦ v.keyed k e (rw other at found)
    ];
    below = λ i one small. ground (arith, v.below i one small);
    above = λ i large. ground (arith, v.above i large);
  },
  ground arith,
)

ingest-IsKept :
    (st : RunEventState) (seqs : List ℕ) (seq : ℕ) (ev : RunEvent)
    → number ev.seq ≡ seq
    → 1 ≤ seq
    → IsKept st seqs
    → let (st', reply) = ingest st seq ev in IsKept st' (with_taken (taken reply) seq seqs)
unfolding ingest
ingest-IsKept st seqs seq ev named one k = elim (Bool-cases (leb seq st.head)) [
  | inl old ↦ rw old (again-IsKept st seqs seq (k.0.below seq one (ground arith)) k)
  | inr new ↦ elim (Bool-cases (is_pending (find seq st.pending))) [
    | inl waits ↦
        rw (new, waits) (again-IsKept st seqs seq (sym (k.0.above seq (ground arith)) ∙ waits) k)
    | inr first ↦ elim (Bool-cases (nat_eq seq (suc st.head))) [
      | inl next ↦ rw (new, first, next) (next-IsKept st seqs seq ev (ground arith) k).0
      | inr far ↦ elim (Bool-cases (leb max_pending_run_events (length st.pending))) [
        | inl full ↦ rw (new, first, far, full) k
        | inr room ↦ rw (new, first, far, room) (held-IsKept st seqs seq ev named (ground arith) k)
      ]
    ]
  ]
]

positive-number : (z : ℤ) (n : ℕ) → positive z ≡ some n → (number z ≡ n) × (1 ≤ n)
positive-number (pos zero) n h = absurd (ground arith)
positive-number (pos (suc m)) n h = (ground arith, ground arith)
positive-number (negsuc m) n h = absurd (ground arith)

pub record Delivery : Type 0 where
  pub account : String
  pub device_id : String
  pub event : RunEvent

abbrev pub key_of : Delivery → RunEventKey
key_of d = record { account = d.account; device_id = d.device_id; run_id = d.event.run_id }

unfoldable pub accept_all : RunEventBroker → List Delivery → RunEventBroker
accept_all runs [] = runs
accept_all runs (d ∷ ds) = accept_all (accept runs d.account d.device_id d.event).0 ds

-- The numbers of the run's events that were taken without an error, after those of `seqs`.
unfoldable pub numbers : RunEventKey → RunEventBroker → List ℕ → List Delivery → List ℕ
unfolding key_eq
numbers key runs seqs [] = seqs
numbers key runs seqs (d ∷ ds) =
    let (runs', reply) = accept runs d.account d.device_id d.event in
    numbers key runs' (with_taken (key_eq (key_of d) key && taken reply) (number d.event.seq) seqs)
      ds

key_eq-same : (a b : RunEventKey) → key_eq a b ≡ true → a ≡ b
unfolding key_eq
key_eq-same a b h =
    ground
      (arith, eq_iff a.account b.account, eq_iff a.device_id b.device_id, eq_iff a.run_id b.run_id)

pub key_eq_self : (a : RunEventKey) → key_eq a a ≡ true
unfolding key_eq
key_eq_self a =
    ground
      (arith, eq_iff a.account a.account, eq_iff a.device_id a.device_id, eq_iff a.run_id a.run_id)

abbrev pub Keeps : RunEventBroker → RunEventKey → List ℕ → Type 0
Keeps runs key seqs = IsKept (state_of (runs key)) seqs

-- `accept` answered the delivery `d` with this broker and reply.
abbrev pub Answered : RunEventKey → List ℕ → Delivery → RunEventBroker × Reply → Type 0
Answered key seqs d (runs', reply) =
    Keeps runs' key (with_taken (key_eq (key_of d) key && taken reply) (number d.event.seq) seqs)

refused-Keeps :
    (runs : RunEventBroker) (key : RunEventKey) (seqs : List ℕ) (d : Delivery) (e : Error)
    → Keeps runs key seqs
    → Answered key seqs d (refused runs e)
refused-Keeps runs key seqs d e k = elim (Bool-cases (key_eq (key_of d) key)) [
  | inl same ↦ rw same k
  | inr other ↦ rw other k
]

stored-Keeps :
    (runs : RunEventBroker) (key : RunEventKey) (seqs : List ℕ) (d : Delivery) (seq : ℕ)
    → positive d.event.seq ≡ some seq
    → Keeps runs key seqs
    → Answered key seqs d (stored runs (key_of d) (ingest (state_of (runs (key_of d))) seq d.event))
unfolding write
stored-Keeps runs key seqs d seq h k =
    let (named, one) = positive-number d.event.seq seq h in
    elim (Bool-cases (key_eq (key_of d) key)) [
      | inl same ↦
          let here = key_eq-same (key_of d) key same in
          let k' : Keeps runs (key_of d) seqs = subst (λ x. Keeps runs x seqs) (sym here) k in
          rw (same, named)
            (ingest-IsKept (state_of (runs (key_of d))) seqs seq d.event named one k')
      | inr other ↦ rw other k
    ]

numbered-Keeps :
    (runs : RunEventBroker) (key : RunEventKey) (seqs : List ℕ) (d : Delivery) (o : Option ℕ)
    → positive d.event.seq ≡ o
    → Keeps runs key seqs
    → Answered key seqs d (accept_numbered runs d.account d.device_id d.event o)
numbered-Keeps runs key seqs d none h k = refused-Keeps runs key seqs d seq_not_positive k
numbered-Keeps runs key seqs d (some seq) h k =
    if_lem (Answered key seqs d) (str_eq d.event.kind "") _ _
      (λ e. refused-Keeps runs key seqs d kind_required k)
      (λ e. stored-Keeps runs key seqs d seq h k)

pub accept-Keeps :
    (runs : RunEventBroker) (key : RunEventKey) (seqs : List ℕ) (d : Delivery)
    → Keeps runs key seqs
    → Answered key seqs d (accept runs d.account d.device_id d.event)
unfolding accept
accept-Keeps runs key seqs d k =
    let answered = Answered key seqs d in
    if_lem answered (str_eq d.account "") _ _ (λ e. refused-Keeps runs key seqs d ids_required k)
      (λ e.
        if_lem answered (str_eq d.device_id "") _ _
          (λ e. refused-Keeps runs key seqs d ids_required k)
          (λ e.
            if_lem answered (str_eq d.event.run_id "") _ _
              (λ e. refused-Keeps runs key seqs d run_id_required k)
              (λ e. numbered-Keeps runs key seqs d (positive d.event.seq) refl k)))

pub accept_all-Keeps :
    (runs : RunEventBroker) (key : RunEventKey) (seqs : List ℕ) (ds : List Delivery)
    → Keeps runs key seqs
    → Keeps (accept_all runs ds) key (numbers key runs seqs ds)
unfolding accept_all numbers
accept_all-Keeps runs key seqs [] k = k
accept_all-Keeps runs key seqs (d ∷ ds) k =
    let (runs', reply) = accept runs d.account d.device_id d.event in
    accept_all-Keeps runs' key _ ds (accept-Keeps runs key seqs d k)

abbrev pub nothing_yet : RunEventBroker
nothing_yet key = none

pub nothing_yet-Keeps : (key : RunEventKey) → Keeps nothing_yet key []
unfolding find
nothing_yet-Keeps key = (
  record {
    keyed = λ k e found. absurd (ground arith);
    below = λ i one small. absurd (omega arith);
    above = λ i large. refl;
  },
  refl,
)

-- The numbers taken of one run, from a broker that has seen nothing.
abbrev pub taken_of : RunEventKey → List Delivery → List ℕ
taken_of key ds = numbers key nothing_yet [] ds

-- However events of any runs and devices arrive, out of order, again or malformed, `Head` has every
-- number from 1 up to it among the run's events taken without an error, and not the next one.
pub accept_all-contiguous :
    (ds : List Delivery) (account device_id run_id : String)
    → let key = run_key account device_id run_id in
      let head = head_of (accept_all nothing_yet ds) account device_id run_id in
      ((i : ℕ) → 1 ≤ i → i ≤ head → has i (taken_of key ds) ≡ true)
      × (has (suc head) (taken_of key ds) ≡ false)
unfolding head_of
accept_all-contiguous ds account device_id run_id =
    let key = run_key account device_id run_id in
    let (sound, drained) = accept_all-Keeps nothing_yet key [] ds (nothing_yet-Keeps key) in
    (
      sound.below,
      sym (sound.above (suc (state_of (accept_all nothing_yet ds key)).head) (omega arith))
          ∙ drained,
    )

head-le :
    (m n : ℕ) (xs ys : List ℕ)
    → ((i : ℕ) → has i xs ≡ has i ys)
    → ((i : ℕ) → 1 ≤ i → i ≤ m → has i xs ≡ true)
    → has (suc n) ys ≡ false
    → m ≤ n
head-le m n xs ys same full gap = elim (dec_lt n m) [
  | yes beyond ↦
      absurd (ground (arith, full (suc n) (omega arith) (omega arith), same (suc n), gap))
  | no within ↦ omega arith
]

-- The head does not depend on the order: two histories that took the same numbers of a run have
-- the same head.
pub accept_all-order :
    (ds es : List Delivery) (account device_id run_id : String)
    → ((i : ℕ)
        → has i (taken_of (run_key account device_id run_id) ds)
          ≡ has i (taken_of (run_key account device_id run_id) es))
    → head_of (accept_all nothing_yet ds) account device_id run_id
      ≡ head_of (accept_all nothing_yet es) account device_id run_id
accept_all-order ds es account device_id run_id same =
    let (full, gap) = accept_all-contiguous ds account device_id run_id in
    let (full', gap') = accept_all-contiguous es account device_id run_id in
    let up = head-le _ _ _ _ same full gap' in
    let down = head-le _ _ _ _ (λ i. sym (same i)) full' gap in omega (arith, up, down)
