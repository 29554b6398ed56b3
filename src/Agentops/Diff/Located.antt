-- ===== src/Agentops/Diff/Located.antt =====
-- The changed lines: what the span of a diff says of the two contents.
use codebridge.Base.{
  ℕ, suc, ◌+◌, ◌-◌, ◌≡◌, ◌≢◌, refl, sym, ap, ◌∙◌, List, [], ◌∷◌, ◌++◌, arith, length, drop,
  drop-length-append, length-append, Bool-cases, inl, inr,
}
use mathlib.Core.Path.{subst}
use mathlib.Core.List.{append_assoc, append-nil}
use codebridge.Base.Text.{text_eq, text_eq_iff}
use codebridge.Agentops.Paths.{reversed}
use codebridge.Agentops.Edits.{Bytes}
use codebridge.Agentops.Diff.{same_front, same_back, Span, locate_changed_lines}

abbrev Lines : Type 0
Lines = List Bytes

rev-onto : (xs ys : Lines) → reversed xs ys ≡ reversed xs [] ++ ys
unfolding reversed
rev-onto [] ys = refl
rev-onto (x ∷ xs) ys =
    rev-onto xs (x ∷ ys)
    ∙ sym (append_assoc (reversed xs []) (x ∷ []) ys)
    ∙ ap (λ zs. zs ++ ys) (sym (rev-onto xs (x ∷ [])))

rev-append : (xs ys : Lines) → reversed (xs ++ ys) [] ≡ reversed ys [] ++ reversed xs []
unfolding reversed
rev-append [] ys = sym (append-nil (reversed ys []))
rev-append (x ∷ xs) ys =
    rev-onto (xs ++ ys) (x ∷ [])
    ∙ ap (λ zs. zs ++ (x ∷ [])) (rev-append xs ys)
    ∙ append_assoc (reversed ys []) (reversed xs []) (x ∷ [])
    ∙ ap (λ zs. reversed ys [] ++ zs) (sym (rev-onto xs (x ∷ [])))

rev-rev : (xs : Lines) → reversed (reversed xs []) [] ≡ xs
unfolding reversed
rev-rev [] = refl
rev-rev (x ∷ xs) =
    ap (λ zs. reversed zs []) (rev-onto xs (x ∷ []))
    ∙ rev-append (reversed xs []) (x ∷ [])
    ∙ ap (λ zs. x ∷ zs) (rev-rev xs)

length-rev : (xs ys : Lines) → length (reversed xs ys) ≡ length xs + length ys
unfolding reversed
length-rev [] ys = omega arith
length-rev (x ∷ xs) ys = omega (arith, length-rev xs (x ∷ ys))

-- If both are there, their first lines differ.
abbrev pub HeadsDiffer : Lines → Lines → Type 0
HeadsDiffer [] ys = Unit {0}
HeadsDiffer (x ∷ xs) [] = Unit {0}
HeadsDiffer (x ∷ xs) (y ∷ ys) = x ≢ y

heads-append : (xs ys zs : Lines) → HeadsDiffer (xs ++ zs) (ys ++ zs) → HeadsDiffer xs ys
heads-append [] ys zs h = tt
heads-append (x ∷ xs) [] zs h = tt
heads-append (x ∷ xs) (y ∷ ys) zs h = h

-- The lines are `front`, and then two rests that differ at once.
record Fronts (old new : Lines) : Type 0 where
  front : Lines
  old_rest : Lines
  new_rest : Lines
  old_is : old ≡ front ++ old_rest
  new_is : new ≡ front ++ new_rest
  size : length front ≡ same_front old new
  differ : HeadsDiffer old_rest new_rest

fronts : (old new : Lines) → Fronts old new
unfolding same_front
fronts [] new = record {
  front = [];
  old_rest = [];
  new_rest = new;
  old_is = refl;
  new_is = refl;
  size = refl;
  differ = tt;
}
fronts (a ∷ old) [] = record {
  front = [];
  old_rest = a ∷ old;
  new_rest = [];
  old_is = refl;
  new_is = refl;
  size = refl;
  differ = tt;
}
fronts (a ∷ old) (b ∷ new) =
    let f = fronts old new in
    elim (Bool-cases (text_eq a b)) [
      | inl same ↦ record {
        front = a ∷ f.front;
        old_rest = f.old_rest;
        new_rest = f.new_rest;
        old_is = ap (λ xs. a ∷ xs) f.old_is;
        new_is = λ i. sym ((text_eq_iff a b).0 same) i ∷ f.new_is i;
        size = rw same (ap suc f.size);
        differ = f.differ;
      }
      | inr other ↦ record {
        front = [];
        old_rest = a ∷ old;
        new_rest = b ∷ new;
        old_is = refl;
        new_is = refl;
        size = rw other refl;
        differ = λ e. absurd (ground (arith, (text_eq_iff a b).1 e, other));
      }
    ]

-- The old lines are `front`, `gone` and `back`, the new ones `front`, `come` and `back`; `gone` and
-- `come` differ in their first and in their last line, and the span counts them.
pub record Located (old new : Lines) (span : Span) : Type 0 where
  pub front : Lines
  pub gone : Lines
  pub come : Lines
  pub back : Lines
  pub old_is : old ≡ front ++ (gone ++ back)
  pub new_is : new ≡ front ++ (come ++ back)
  pub starts : length front ≡ span.start
  pub removes : length gone ≡ span.removed
  pub adds : length come ≡ span.added
  pub first_differ : HeadsDiffer gone come
  pub last_differ : HeadsDiffer (reversed gone []) (reversed come [])

turned :
    (xs front rest : Lines)
    → reversed xs [] ≡ front ++ rest
    → xs ≡ reversed rest [] ++ reversed front []
turned xs front rest e = sym (rev-rev xs) ∙ ap (λ zs. reversed zs []) e ∙ rev-append front rest

turned-length :
    (xs front rest : Lines)
    → reversed xs [] ≡ front ++ rest
    → length (reversed rest []) ≡ length xs - length front
turned-length xs front rest e =
    omega (arith, length-rev rest [], length-rev xs [], ap length e, length-append front rest)

counted :
    (xs front rest : Lines) (n prefix suffix : ℕ) {k : ℕ}
    → xs ≡ front ++ rest
    → length front ≡ prefix
    → k ≡ suffix
    → n ≡ length rest - k
    → n ≡ length xs - prefix - suffix
counted xs front rest n prefix suffix e p s h =
    omega (arith, p, s, h, ap length e, length-append front rest)

dropped : {k : ℕ} (front rest xs : Lines) → xs ≡ front ++ rest → length front ≡ k → drop k xs ≡ rest
dropped front rest xs e size = rw (sym size, e) (drop-length-append front rest)

heads-parts :
    (xs ys us vs zs : Lines) → xs ≡ us ++ zs → ys ≡ vs ++ zs → HeadsDiffer xs ys → HeadsDiffer us vs
heads-parts xs ys us vs zs e f h =
    heads-append us vs zs (subst (HeadsDiffer (us ++ zs)) f (subst (λ x. HeadsDiffer x ys) e h))

-- The span of the changed lines is the least one: outside it the lines are the same, and at both of
-- its ends they differ.
pub locate_changed_lines-Located :
    (old new : List Bytes) → Located old new (locate_changed_lines old new)
unfolding locate_changed_lines same_back
locate_changed_lines-Located old new =
    let f = fronts old new in
    let b = fronts (reversed f.old_rest []) (reversed f.new_rest []) in
    let old_drop : drop (same_front old new) old ≡ f.old_rest =
      dropped f.front f.old_rest old f.old_is f.size in
    let new_drop : drop (same_front old new) new ≡ f.new_rest =
      dropped f.front f.new_rest new f.new_is f.size in
    let size : length b.front ≡ same_back (same_front old new) old new =
      rw (old_drop, new_drop) b.size in
    let old_parts = turned f.old_rest b.front b.old_rest b.old_is in
    let new_parts = turned f.new_rest b.front b.new_rest b.new_is in
    record {
      front = f.front;
      gone = reversed b.old_rest [];
      come = reversed b.new_rest [];
      back = reversed b.front [];
      old_is = f.old_is ∙ ap (λ xs. f.front ++ xs) old_parts;
      new_is = f.new_is ∙ ap (λ xs. f.front ++ xs) new_parts;
      starts = f.size;
      removes =
          counted old f.front f.old_rest _ _ _ f.old_is f.size size
            (turned-length f.old_rest b.front b.old_rest b.old_is);
      adds =
          counted new f.front f.new_rest _ _ _ f.new_is f.size size
            (turned-length f.new_rest b.front b.new_rest b.new_is);
      first_differ =
          heads-parts f.old_rest f.new_rest (reversed b.old_rest []) (reversed b.new_rest [])
            (reversed b.front []) old_parts new_parts f.differ;
      last_differ = rw (rev-rev b.old_rest, rev-rev b.new_rest) b.differ;
    }
