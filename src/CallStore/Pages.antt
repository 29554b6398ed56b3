-- ===== src/CallStore/Pages.antt =====
-- Reading the log page by page.
use codebridge.Base.{
  ℕ, zero, suc, ◌+◌, ◌*◌, ◌≤◌, ◌≡◌, refl, sym, ap, ◌∙◌, Bool, List, [], ◌∷◌, ◌++◌, arith, length,
  take, drop, select,
}
use codebridge.Base.Int.{pos, positive}
use codebridge.Base.Text.{Text}
use codebridge.CallStore.{Call, Filter, limit_of, matches, stats, list}

-- The filter with this page.
abbrev pub page : Filter → ℕ → ℕ → Filter
page f n offset = record f { limit = pos n; offset = pos offset }

-- `k` pages of `n` rows, one after the other.
unfoldable pub pages : (Text → Text → Bool) → Filter → List Call → ℕ → ℕ → ℕ → List Call
pages like f rows n offset zero = []
pages like f rows n offset (suc k) =
    (list like (page f n offset) rows).0 ++ pages like f rows n (offset + n) k

take_nothing : (m : ℕ) → take {A = Call} m [] ≡ []
take_nothing zero = refl
take_nothing (suc m) = refl

drop_nothing : (m : ℕ) → drop {A = Call} m [] ≡ []
drop_nothing zero = refl
drop_nothing (suc m) = refl

take-plus : (n m : ℕ) (xs : List Call) → take n xs ++ take m (drop n xs) ≡ take (n + m) xs
take-plus zero m xs = let e : m ≡ 0 + m = omega arith in ap (λ k. take k xs) e
take-plus (suc n) m [] = take_nothing m ∙ sym (take_nothing (suc n + m))
take-plus (suc n) m (x ∷ xs) =
    let e : suc (n + m) ≡ suc n + m = omega arith in
    ap (λ ys. x ∷ ys) (take-plus n m xs) ∙ ap (λ k. take k (x ∷ xs)) e

drop-plus : (o n : ℕ) (xs : List Call) → drop (o + n) xs ≡ drop n (drop o xs)
drop-plus zero n xs = let e : 0 + n ≡ n = omega arith in ap (λ k. drop k xs) e
drop-plus (suc o) n [] = drop_nothing (suc o + n) ∙ sym (drop_nothing n)
drop-plus (suc o) n (x ∷ xs) =
    let e : suc o + n ≡ suc (o + n) = omega arith in ap (λ k. drop k (x ∷ xs)) e ∙ drop-plus o n xs

all_taken : (n : ℕ) (xs : List Call) → length xs ≤ n → take n xs ≡ xs
all_taken zero [] h = refl
all_taken zero (x ∷ xs) h = absurd (omega arith)
all_taken (suc n) [] h = refl
all_taken (suc n) (x ∷ xs) h = ap (λ ys. x ∷ ys) (all_taken n xs (omega arith))

limit_kept : (n : ℕ) → 1 ≤ n → n ≤ 500 → limit_of (positive (pos n)) ≡ n
limit_kept zero one small = absurd (omega arith)
limit_kept (suc n) one small = ground (arith, small)

pages-take :
    (like : Text → Text → Bool) (f : Filter) (rows : List Call) (n offset k : ℕ)
    → 1 ≤ n
    → n ≤ 500
    → pages like f rows n offset k ≡ take (k * n) (drop offset (select (matches like f) rows))
unfolding pages list matches
pages-take like f rows n offset zero one small =
    let e : 0 ≡ 0 * n = omega arith in
    ap (λ k. take k (drop offset (select (matches like f) rows))) e
pages-take like f rows n offset (suc k) one small =
    let found = select (matches like f) rows in
    let more : n + k * n ≡ suc k * n = omega arith in
    rw (limit_kept n one small) (
      ap (λ ys. take n (drop offset found) ++ ys)
        (pages-take like f rows n (offset + n) k one small
          ∙ ap (take (k * n)) (drop-plus offset n found))
      ∙ take-plus n (k * n) (drop offset found)
      ∙ ap (λ m. take m (drop offset found)) more)

-- A reader who asks for page after page, of any size from 1 to 500, until the pages reach the total
-- that the log tells, has read every call that matches the filter, once and in order. The total does
-- not depend on the page.
pub pages-select :
    (like : Text → Text → Bool) (f : Filter) (rows : List Call) (n k : ℕ)
    → 1 ≤ n
    → n ≤ 500
    → (list like f rows).1.total ≤ k * n
    → (pages like f rows n 0 k ≡ select (matches like f) rows)
      × ((offset : ℕ) → (list like (page f n offset) rows).1 ≡ (list like f rows).1)
unfolding list matches stats
pages-select like f rows n k one small enough = (
  pages-take like f rows n 0 k one small ∙ all_taken (k * n) (select (matches like f) rows) enough,
  λ offset. refl,
)
