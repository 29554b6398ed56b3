-- ===== src/Agentops/RunStore/Recovered.antt =====
-- What a start leaves in the database.
use codebridge.Base.{
  ℕ, suc, ◌≤◌, ◌≡◌, refl, sym, ap, ◌∙◌, Bool, true, false, ◌&&◌, String, Option, none, some, List,
  [], ◌∷◌, ◌++◌, map, arith, nat_eq, nat_eq_iff, str_eq, eq_iff, any, if◌then◌else◌, Bool-cases,
  inl, inr,
}
use mathlib.Core.Path.{subst}
use codebridge.Agentops.RunStore.{
  AgentRun, StoredEvent, RunStore, has_key, find_event, last_seq, is_stale, stale_ids,
  interrupted_event, insert_or_ignore, record_interrupted, mark_interrupted, open_run_store,
}

abbrev pub among : String → List String → Bool
among id ids = any (str_eq id) ids

abbrev pub IsDistinct : List String → Type 0
IsDistinct [] = Unit {0}
IsDistinct (id ∷ ids) = (among id ids ≡ false) × IsDistinct ids

key-le :
    (id : String) (seq : ℕ) (events : List StoredEvent)
    → any (has_key id seq) events ≡ true
    → seq ≤ last_seq id events
unfolding last_seq
key-le id seq [] h = absurd (ground arith)
key-le id seq (e ∷ events) h = elim (Bool-cases (has_key id seq e)) [
  | inl here ↦ ground (arith, here, nat_eq_iff e.seq seq)
  | inr there ↦ let later = key-le id seq events (rw there at h) in ground (arith, later)
]

next-free :
    (id : String) (events : List StoredEvent)
    → any (has_key id (suc (last_seq id events))) events ≡ false
next-free id events = elim (Bool-cases (any (has_key id (suc (last_seq id events))) events)) [
  | inl taken ↦ absurd (omega (arith, key-le id (suc (last_seq id events)) events taken))
  | inr free ↦ free
]

not_found :
    (id : String) (seq : ℕ) (events : List StoredEvent)
    → any (has_key id seq) events ≡ false
    → find_event id seq events ≡ none
unfolding find_event
not_found id seq [] h = refl
not_found id seq (e ∷ events) h = ground (arith, h, not_found id seq events)

abbrev or_last : Option StoredEvent → Bool → StoredEvent → Option StoredEvent
or_last none b x = if b then some x else none
or_last (some e) b x = some e

find-append :
    (id : String) (seq : ℕ) (events : List StoredEvent) (x : StoredEvent)
    → find_event id seq (events ++ (x ∷ []))
      ≡ or_last (find_event id seq events) (has_key id seq x) x
unfolding find_event
find-append id seq [] x = refl
find-append id seq (e ∷ events) x = ground (arith, find-append id seq events x)

last-append :
    (id : String) (events : List StoredEvent) (x : StoredEvent)
    → str_eq x.run_id id ≡ false
    → last_seq id (events ++ (x ∷ [])) ≡ last_seq id events
unfolding last_seq
last-append id [] x h = rw h refl
last-append id (e ∷ events) x h = ground (arith, last-append id events x h)

-- The events after a start: of each id one more, with the next number, and nothing else.
abbrev Adds : ℕ → List String → List StoredEvent → List StoredEvent → Type 0
Adds now ids events events' =
    (id : String) (seq : ℕ)
    → find_event id seq events' ≡ (
        if among id ids && nat_eq seq (suc (last_seq id events))
        then some (interrupted_event now id seq)
        else find_event id seq events)

inserted :
    (now : ℕ) (id : String) (events : List StoredEvent)
    → insert_or_ignore (interrupted_event now id (suc (last_seq id events))) events
      ≡ events ++ (interrupted_event now id (suc (last_seq id events)) ∷ [])
unfolding insert_or_ignore
inserted now id events = rw (next-free id events) refl

or_last-false : (o : Option StoredEvent) (x : StoredEvent) → or_last o false x ≡ o
or_last-false none x = refl
or_last-false (some e) x = refl

-- The events with one more, under the next number of `id`.
added_here :
    (now : ℕ) (id : String) (events : List StoredEvent) (seq : ℕ)
    → find_event id seq (events ++ (interrupted_event now id (suc (last_seq id events)) ∷ [])) ≡ (
        if nat_eq seq (suc (last_seq id events))
        then some (interrupted_event now id seq)
        else find_event id seq events)
added_here now id events seq =
    let x = interrupted_event now id (suc (last_seq id events)) in
    let step = find-append id seq events x in
    let own : str_eq id id ≡ true = (eq_iff id id).1 refl in
    elim (Bool-cases (nat_eq seq (suc (last_seq id events)))) [
      | inl next ↦
          let at : seq ≡ suc (last_seq id events) =
            (nat_eq_iff seq (suc (last_seq id events))).0 next in
          let none_yet = not_found id (suc (last_seq id events)) events (next-free id events) in
          rw next (
            subst (λ n. find_event id n (events ++ (x ∷ [])) ≡ some (interrupted_event now id n))
              (sym at)
              (find-append id (suc (last_seq id events)) events x
                ∙ rw
                    (
                      none_yet,
                      own,
                      (nat_eq_iff (suc (last_seq id events)) (suc (last_seq id events))).1 refl,
                    )
                    refl))
      | inr elsewhere ↦
          let missed : nat_eq (suc (last_seq id events)) seq ≡ false = ground (arith, elsewhere) in
          rw elsewhere (step ∙ rw (own, missed) (or_last-false (find_event id seq events) x))
    ]

added_there :
    (now : ℕ) (id j : String) (events : List StoredEvent) (seq : ℕ)
    → str_eq id j ≡ false
    → find_event j seq (events ++ (interrupted_event now id (suc (last_seq id events)) ∷ []))
      ≡ find_event j seq events
added_there now id j events seq differs =
    let x = interrupted_event now id (suc (last_seq id events)) in
    find-append j seq events x ∙ rw differs (or_last-false (find_event j seq events) x)

one-Adds :
    (now : ℕ) (id : String) (ids : List String) (events events' : List StoredEvent)
    → among id ids ≡ false
    → Adds now ids (events ++ (interrupted_event now id (suc (last_seq id events)) ∷ [])) events'
    → Adds now (id ∷ ids) events events'
one-Adds now id ids events events' apart adds j seq = elim (Bool-cases (str_eq id j)) [
  | inl same ↦
      subst
        (λ k. find_event k seq events' ≡ (
          if among k (id ∷ ids) && nat_eq seq (suc (last_seq k events))
          then some (interrupted_event now k seq)
          else find_event k seq events))
        ((eq_iff id j).0 same)
        (rw ((eq_iff id id).1 refl) ((rw apart at (adds id seq)) ∙ added_here now id events seq))
  | inr differs ↦
      let other : str_eq j id ≡ false = ground (arith, differs, eq_iff j id, eq_iff id j) in
      let last =
        last-append j events (interrupted_event now id (suc (last_seq id events))) differs in
      rw other (rw (last, added_there now id j events seq differs) at (adds j seq))
]

record_interrupted-Adds :
    (now : ℕ) (ids : List String) (events : List StoredEvent)
    → IsDistinct ids
    → Adds now ids events (record_interrupted now ids events)
unfolding record_interrupted
record_interrupted-Adds now [] events distinct = λ id seq. refl
record_interrupted-Adds now (id ∷ ids) events (apart, distinct) =
    one-Adds now id ids events _ apart
      (rw (inserted now id events) (record_interrupted-Adds now ids _ distinct))

abbrev pub ids_of : List AgentRun → List String
ids_of runs = map (λ r. r.id) runs

stale-among :
    (id : String) (runs : List AgentRun)
    → among id (ids_of runs) ≡ false
    → among id (stale_ids runs) ≡ false
unfolding stale_ids
stale-among id [] h = refl
stale-among id (r ∷ runs) h = ground (arith, h, stale-among id runs)

stale-IsDistinct : (runs : List AgentRun) → IsDistinct (ids_of runs) → IsDistinct (stale_ids runs)
unfolding stale_ids
stale-IsDistinct [] distinct = tt
stale-IsDistinct (r ∷ runs) (apart, distinct) = elim (Bool-cases (is_stale r.status)) [
  | inl stale ↦ rw stale (stale-among r.id runs apart, stale-IsDistinct runs distinct)
  | inr over ↦ rw over (stale-IsDistinct runs distinct)
]

marked-over : (r : AgentRun) → is_stale (mark_interrupted r).status ≡ false
marked-over r = elim (Bool-cases (is_stale r.status)) [
  | inl stale ↦ rw stale refl
  | inr over ↦ rw over over
]

none_stale : (runs : List AgentRun) → stale_ids (map mark_interrupted runs) ≡ []
unfolding stale_ids
none_stale [] = refl
none_stale (r ∷ runs) = rw (marked-over r) (none_stale runs)

unchanged : (r : AgentRun) → is_stale r.status ≡ false → mark_interrupted r ≡ r
unchanged r over = rw over refl

marked_again :
    (runs : List AgentRun)
    → map mark_interrupted (map mark_interrupted runs) ≡ map mark_interrupted runs
marked_again [] = refl
marked_again (r ∷ runs) =
    let same : mark_interrupted (mark_interrupted r) ≡ mark_interrupted r =
      unchanged (mark_interrupted r) (marked-over r) in
    λ i. same i ∷ marked_again runs i

-- A start whose statements work leaves no run queued or running; each run that was has one more
-- event, an interruption under the number after its last, and every other event is as it was.
pub open_run_store-recovers :
    (now : ℕ) (db : RunStore)
    → IsDistinct (ids_of db.runs)
    → (stale_ids (open_run_store now true db).0.runs ≡ [])
      × ((id : String) (seq : ℕ)
          → find_event id seq (open_run_store now true db).0.events ≡ (
              if among id (stale_ids db.runs) && nat_eq seq (suc (last_seq id db.events))
              then some (interrupted_event now id seq)
              else find_event id seq db.events))
unfolding open_run_store
open_run_store-recovers now db distinct = (
  none_stale db.runs,
  record_interrupted-Adds now (stale_ids db.runs) db.events (stale-IsDistinct db.runs distinct),
)

-- A further start, whenever it comes, changes nothing, and answers with the same store.
pub open_run_store-again :
    (now later : ℕ) (db : RunStore)
    → open_run_store later true (open_run_store now true db).0
      ≡ ((open_run_store now true db).0, some (open_run_store now true db).0)
unfolding open_run_store record_interrupted
open_run_store-again now later db =
    let db' = (open_run_store now true db).0 in
    let same : record_interrupted later (stale_ids db'.runs) db'.events ≡ db'.events =
      ap (λ ids. record_interrupted later ids db'.events) (none_stale db.runs) in
    λ i.
      let back : RunStore = record { runs = marked_again db.runs i; events = same i } in
      (back, some back)
