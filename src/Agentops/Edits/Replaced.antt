-- ===== src/Agentops/Edits/Replaced.antt =====
-- Replacing the first occurrence of a text.
use codebridge.Base.{
  ◌≡◌, ◌≢◌, refl, ap, true, [], ◌∷◌, ◌++◌, arith, nat_eq, nat_eq_iff, length, drop, Bool-cases, inl,
  inr,
}
use codebridge.Base.Text.{has_prefix}
use codebridge.Agentops.Edits.{Bytes, count_from, count, replace_first}

has_prefix-split : (s p : Bytes) → has_prefix s p ≡ true → s ≡ p ++ drop (length p) s
unfolding has_prefix
has_prefix-split s [] h = refl
has_prefix-split [] (b ∷ p) h = absurd (ground arith)
has_prefix-split (a ∷ s) (b ∷ p) h = elim (Bool-cases (nat_eq a b)) [
  | inl same ↦ λ i. (nat_eq_iff a b).0 same i ∷ has_prefix-split s p (rw same at h) i
  | inr other ↦ absurd (ground arith)
]

-- `s'` is `s` with one occurrence of `old` replaced by `new`.
abbrev pub Replaced : Bytes → Bytes → Bytes → Bytes → Type 0
Replaced old new s s' =
    (pre : Bytes) × (post : Bytes) × (s ≡ pre ++ (old ++ post)) × (s' ≡ pre ++ (new ++ post))

count_from-Replaced :
    (old new s : Bytes) → count_from old 0 s ≢ 0 → Replaced old new s (replace_first old new s)
unfolding count_from replace_first
count_from-Replaced old new [] h = absurd (h refl)
count_from-Replaced old new (c ∷ s) h = elim (Bool-cases (has_prefix (c ∷ s) old)) [
  | inl here ↦ rw here ([], drop (length old) (c ∷ s), has_prefix-split (c ∷ s) old here, refl)
  | inr later ↦
      let (pre, post, e, f) = count_from-Replaced old new s (rw later at h) in
      rw later (c ∷ pre, post, ap (λ xs. c ∷ xs) e, ap (λ xs. c ∷ xs) f)
]

-- Where `old` occurs, `replace_first` replaces one occurrence and keeps all the rest.
pub replace_first-Replaced :
    (old new s : Bytes) → count s old ≢ 0 → Replaced old new s (replace_first old new s)
unfolding count
replace_first-Replaced old new s h = count_from-Replaced old new s h
