-- ===== src/Runtime/Journal/Replay.antt =====
-- Reading a stream back: the page after a sequence number is the next numbers, without a gap.
use codebridge.Base.{
  min_of, eq_iff, nat_eq_iff, ℕ, zero, suc, ◌+◌, ◌-◌, ◌≤◌, String, Bool, false, ◌&&◌, ◌≡◌, refl, ap,
  ◌∙◌, none, List, [], ◌∷◌, arith, str_eq, ltb, leb, Bool-cases, inl, inr, select, take, length,
}
use mathlib.Core.Path.{subst}
use codebridge.Runtime.Entities.{Event, validate_from, validate_contiguous}
use codebridge.Runtime.Store.{Db}
use codebridge.Runtime.Journal.{
  event_times, stream_head, max_or, insert_by, order_by, stream_rows, scan_events, event_page_limit,
  events_for_stream,
}
use codebridge.Runtime.Journal.Numbered.{IsNumbered, IsValid}

-- The numbers `a`, `a + 1` and so on up to, and without, `b`.
abbrev IsRange : ℕ → List (Event ℕ) → ℕ → Type 0
IsRange a [] b = a ≡ b
IsRange a (e ∷ es) b = (e.seq ≡ a) × IsRange (suc a) es b

IsRange-le : (a b : ℕ) (es : List (Event ℕ)) → IsRange a es b → a ≤ b
IsRange-le a b [] h = ground arith
IsRange-le a b (e ∷ es) h = ground (arith, IsRange-le (suc a) b es h.1)

abbrev by_seq : Event ℕ → ℕ
by_seq e = e.seq

insert_by-last :
    (a b : ℕ) (e : Event ℕ) (es : List (Event ℕ))
    → IsRange a es b
    → e.seq ≡ b
    → IsRange a (insert_by by_seq e es) (suc b)
unfolding insert_by
insert_by-last a b e [] h k = (ground arith, ground arith)
insert_by-last a b e (x ∷ xs) h k =
    let rest = insert_by-last (suc a) b e xs h.1 k in
    let later : leb (by_seq e) (by_seq x) ≡ false = ground (arith, IsRange-le (suc a) b xs h.1) in
    rw later (h.0, rest)

wanted : String → ℕ → Event ℕ → Bool
wanted stream after_seq e = str_eq e.stream stream && ltb after_seq e.seq

rows_of : String → ℕ → List (Event ℕ) → List (Event ℕ)
rows_of stream after_seq es = order_by by_seq (select (wanted stream after_seq) es)

rows-IsRange :
    (stream : String) (after_seq : ℕ) (es : List (Event ℕ))
    → IsNumbered es
    → IsRange
        (suc after_seq)
        (rows_of stream after_seq es)
        (suc (max_or after_seq (stream_head stream es)))
unfolding rows_of wanted order_by stream_head
rows-IsRange stream after_seq [] h = ground arith
rows-IsRange stream after_seq (e ∷ es) h =
    let rest = rows-IsRange stream after_seq es h.2 in
    let below = stream_head stream es in
    elim (Bool-cases (str_eq e.stream stream)) [
      | inr other ↦ rw other rest
      | inl same ↦
          let seq : e.seq ≡ suc below =
            h.0 ∙ ap (λ s. suc (stream_head s es)) ((eq_iff e.stream stream).0 same) in
          elim (Bool-cases (ltb after_seq e.seq)) [
            | inl newer ↦
                let last : suc (max_or after_seq below) ≡ e.seq = ground arith in
                let bound : suc e.seq ≡ suc (max_or after_seq (max_or e.seq below)) =
                  ground arith in
                rw (same, newer)
                  (subst
                    (IsRange (suc after_seq) (insert_by by_seq e (rows_of stream after_seq es)))
                    bound
                    (insert_by-last (suc after_seq) e.seq e (rows_of stream after_seq es)
                      (subst (IsRange (suc after_seq) (rows_of stream after_seq es)) last rest)
                      refl))
            | inr older ↦
                let bound : max_or after_seq below ≡ max_or after_seq (max_or e.seq below) =
                  ground arith in
                rw (same, older)
                  (subst (λ b. IsRange (suc after_seq) (rows_of stream after_seq es) (suc b)) bound
                    rest)
          ]
    ]

take-IsRange :
    (n a b : ℕ) (es : List (Event ℕ))
    → IsRange a es b
    → IsRange a (take n es) (a + length (take n es))
take-IsRange zero a b es h = ground arith
take-IsRange (suc n) a b [] h = ground arith
take-IsRange (suc n) a b (e ∷ es) h =
    (h.0, subst (IsRange (suc a) (take n es)) (ground arith) (take-IsRange n (suc a) b es h.1))

scan_events-contiguous :
    (a b : ℕ) (es : List (Event ℕ)) → IsRange a es b → validate_from (scan_events es) a ≡ none
unfolding validate_from scan_events event_times
scan_events-contiguous a b [] h = refl
scan_events-contiguous a b (e ∷ es) h =
    ground (arith, nat_eq_iff e.seq a, scan_events-contiguous (suc a) b es h.1)

IsRange-length : (a b : ℕ) (es : List (Event ℕ)) → IsRange a es b → length es ≡ b - a
IsRange-length a b [] h = ground arith
IsRange-length a b (e ∷ es) h =
    ground (arith, IsRange-length (suc a) b es h.1, IsRange-le (suc a) b es h.1)

length-scan_events : (es : List (Event ℕ)) → length (scan_events es) ≡ length es
unfolding scan_events
length-scan_events [] = refl
length-scan_events (e ∷ es) = ap suc (length-scan_events es)

length-take : {A : Type 0} (n : ℕ) (xs : List A) → length (take n xs) ≡ min_of n (length xs)
length-take zero xs = ground arith
length-take (suc n) [] = ground arith
length-take (suc n) (x ∷ xs) = ground (arith, length-take n xs)

-- In a valid database, a page of a stream holds the events that follow `after_seq`, numbered from
-- `after_seq + 1` without a gap, so that `ValidateContiguous` accepts it; it holds as many of them
-- as there are, up to the page limit.
pub events_for_stream-contiguous :
    (db : Db) (stream : String) (after_seq limit : ℕ)
    → IsValid db
    → (validate_contiguous (events_for_stream db stream after_seq limit) after_seq ≡ none)
      × (length (events_for_stream db stream after_seq limit)
          ≡ min_of (event_page_limit limit) (stream_head stream db.events - after_seq))
unfolding events_for_stream stream_rows validate_contiguous rows_of wanted
events_for_stream-contiguous db stream after_seq limit v =
    let rows = rows_of stream after_seq db.events in
    let range = rows-IsRange stream after_seq db.events v.numbered in
    let head = stream_head stream db.events in
    (
      scan_events-contiguous (suc after_seq) _ (take (event_page_limit limit) rows)
          (take-IsRange (event_page_limit limit) (suc after_seq) _ rows range),
      length-scan_events (take (event_page_limit limit) rows)
          ∙ length-take (event_page_limit limit) rows
          ∙ ap (min_of (event_page_limit limit)) (
              IsRange-length (suc after_seq) (suc (max_or after_seq head)) rows range
              ∙ ground arith),
    )

-- A page has at least one event of room and at most 500.
event_page_limit-bounds :
    (limit : ℕ) → (1 ≤ event_page_limit limit) × (event_page_limit limit ≤ 500)
unfolding event_page_limit
event_page_limit-bounds limit = (ground arith, ground arith)
