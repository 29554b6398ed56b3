-- ===== src/Runtime/Tables/Active.antt =====
-- The unique index on active runs: a provider session has one active run at most.
use codebridge.Base.{
  ℕ, String, Bool, true, false, ◌≡◌, ◌≢◌, ◌⊎◌, refl, sym, ap, ◌∙◌, Option, none, some, [], ◌∷◌,
  arith, str_eq, eq_iff, Bool-cases, some-inj, inl, inr, not, ◌&&◌, ◌||◌,
}
use mathlib.Core.Bool.{false≢true}
use codebridge.Base.Map.{Dict, lookup, insert, lookup-insert}
use codebridge.Runtime.Entities.{Time, ms, Run}
use codebridge.Runtime.Store.{Db, ok}
use codebridge.Runtime.Tables.{holds_session, active_clash, run_ok, put_run}
use codebridge.Runtime.Rows.{run_times, upsert_run}
use codebridge.Runtime.Tables.Written.{put_run-ok}

-- Two active runs with one provider session are the same run.
abbrev pub IsExclusive : Dict (Run ℕ) → Type 0
IsExclusive m =
    (i j : String) (a b : Run ℕ)
    → lookup i m ≡ some a
    → lookup j m ≡ some b
    → holds_session a ≡ true
    → holds_session b ≡ true
    → a.provider_session_id ≡ b.provider_session_id
    → i ≡ j

-- No other run that is active has the provider session of `r`.
abbrev pub IsFree : String → Run ℕ → Dict (Run ℕ) → Type 0
IsFree k r m =
    (j : String) (b : Run ℕ)
    → lookup j m ≡ some b
    → holds_session r ≡ true
    → holds_session b ≡ true
    → b.provider_session_id ≡ r.provider_session_id
    → k ≡ j

insert-either :
    (k i : String) (r a : Run ℕ) (m : Dict (Run ℕ))
    → lookup i (insert k r m) ≡ some a
    → ((k ≡ i) × (r ≡ a)) ⊎ ((k ≢ i) × (lookup i m ≡ some a))
insert-either k i r a m h = elim (Bool-cases (str_eq k i)) [
  | inl e ↦ inl ((eq_iff k i).0 e, ground (arith, lookup-insert k i r m))
  | inr e ↦ inr (ground (arith, eq_iff k i), ground (arith, lookup-insert k i r m))
]

pub IsExclusive-insert :
    (k : String) (r : Run ℕ) (m : Dict (Run ℕ))
    → IsFree k r m
    → IsExclusive m
    → IsExclusive (insert k r m)
IsExclusive-insert k r m free old i j a b hi hj ha hb same = elim (insert-either k i r a m hi) [
  | inl (ki, ra) ↦ elim (insert-either k j r b m hj) [
    | inl (kj, rb) ↦ sym ki ∙ kj
    | inr (nj, lj) ↦
        sym ki
        ∙ free j b lj (ap holds_session ra ∙ ha) hb
            (sym same ∙ ap (λ x. x.provider_session_id) (sym ra))
  ]
  | inr (ni, li) ↦ elim (insert-either k j r b m hj) [
    | inl (kj, rb) ↦
        sym (
          free i a li (ap holds_session rb ∙ hb) ha
            (same ∙ ap (λ x. x.provider_session_id) (sym rb)))
        ∙ kj
    | inr (nj, lj) ↦ old i j a b li lj ha hb same
  ]
]

or-left : (x y : Bool) → (x || y) ≡ false → x ≡ false
or-left x y h = ground arith

or-right : (x y : Bool) → (x || y) ≡ false → y ≡ false
or-right x y h = ground arith

active_clash-IsFree : (r : Run ℕ) (m : Dict (Run ℕ)) → active_clash r m ≡ false → IsFree r.id r m
unfolding active_clash lookup
active_clash-IsFree r [] h j b l hr hb same = absurd (ground arith)
active_clash-IsFree r ((k, q) ∷ m) h j b l hr hb same = elim (Bool-cases (str_eq k j)) [
  | inr other ↦ active_clash-IsFree r m (or-right _ _ h) j b (rw other at l) hr hb same
  | inl here ↦
      let q_b : q ≡ b = some-inj (rw here at l) in
      let held : holds_session q ≡ true = ap holds_session q_b ∙ hb in
      let psid : str_eq q.provider_session_id r.provider_session_id ≡ true =
        (eq_iff q.provider_session_id r.provider_session_id).1
          (ap (λ x. x.provider_session_id) q_b ∙ same) in
      elim (Bool-cases (str_eq k r.id)) [
        | inl own ↦ sym ((eq_iff k r.id).0 own) ∙ (eq_iff k j).0 here
        | inr foreign ↦
            let clash : (not (str_eq k r.id)
                  && holds_session r
                  && holds_session q
                  && str_eq q.provider_session_id r.provider_session_id)
                ≡ true =
              rw (foreign, hr, held, psid) refl in
            absurd (false≢true (sym (or-left _ (active_clash r m) h) ∙ clash))
      ]
]

upsert_run-keeps :
    (o : Option (Run ℕ)) (r : Run ℕ)
    → (holds_session (upsert_run o r) ≡ holds_session r)
      × ((upsert_run o r).provider_session_id ≡ r.provider_session_id)
upsert_run-keeps none r = (refl, refl)
upsert_run-keeps (some old) r = (refl, refl)

run_ok-free : (r : Run ℕ) (db : Db) → run_ok r db ≡ true → active_clash r db.runs ≡ false
unfolding run_ok
run_ok-free r db h = ground arith

-- Where every provider session has one active run at most, a run that `putRun` writes leaves it so.
pub put_run-IsExclusive :
    (r : Run Time) (db db' : Db) (u : Unit {0})
    → IsExclusive db.runs
    → put_run r db ≡ ok (u, db')
    → IsExclusive db'.runs
unfolding run_times
put_run-IsExclusive r db db' u old h =
    let (named, allowed, written) = put_run-ok r db db' u h in
    let row = run_times ms r in
    let keeps = upsert_run-keeps (lookup r.id db.runs) row in
    let free = active_clash-IsFree row db.runs (run_ok-free row db allowed) in
    rw written (
      IsExclusive-insert r.id (upsert_run (lookup r.id db.runs) row) db.runs
        (λ j b l hr hb same. free j b l (sym keeps.0 ∙ hr) hb (same ∙ keeps.1)) old)
