-- ===== src/Base/Map.antt =====
-- Go's `map[string]V` as an association list: one entry for a key is read, written or dropped.
-- The list's order stands for the order in which the map is ranged over.
use Prim.Native.String.{String}
use mathlib.Core.Path.{◌≡◌, refl, subst₂}
use mathlib.Core.Bool.{Bool}
use mathlib.Core.Logic.{◌⊎◌, inl, inr}
use mathlib.Core.List.{List, [], ◌∷◌}
use mathlib.Core.Option.{Option, none, some}
use native.Mathlib.Omega.{arith}
use text.Mathlib.TextEquality.{eq_iff}
use codebridge.Base.Tests.{if◌then◌else◌, str_eq, Bool-cases}

abbrev pub Dict {ℓ} : Type ℓ → Type ℓ
Dict V = List (String × V)

module _ {ℓ} {V : Type ℓ} where
  unfoldable pub lookup : String → Dict V → Option V
  lookup k [] = none
  lookup k ((j, v) ∷ m) = if str_eq j k then some v else lookup k m

  -- `m[k] = v`
  unfoldable pub insert : String → V → Dict V → Dict V
  insert k v [] = (k, v) ∷ []
  insert k v ((j, w) ∷ m) = if str_eq j k then (k, v) ∷ m else (j, w) ∷ insert k v m

  -- `delete(m, k)`
  unfoldable pub erase : String → Dict V → Dict V
  erase k [] = []
  erase k ((j, w) ∷ m) = if str_eq j k then erase k m else (j, w) ∷ erase k m

  -- `for k, v := range m { if drop { delete(m, k) } }`
  unfoldable pub retain : (V → Bool) → Dict V → Dict V
  retain p [] = []
  retain p ((j, w) ∷ m) = let rest = retain p m in if p w then (j, w) ∷ rest else erase j rest

  abbrev pub keep : (V → Bool) → Option V → Option V
  keep p none = none
  keep p (some v) = if p v then some v else none

  pub lookup-insert :
      (k j : String) (v : V) (m : Dict V)
      → lookup j (insert k v m) ≡ (if str_eq k j then some v else lookup j m)
  unfolding lookup insert
  lookup-insert k j v ((head, w) ∷ rest) =
      ground (arith, lookup-insert k j v rest, eq_iff head j, eq_iff head k, eq_iff k j)
  lookup-insert k j v [] = refl

  pub lookup-erase :
      (k j : String) (m : Dict V) → lookup j (erase k m) ≡ (if str_eq k j then none else lookup j m)
  unfolding lookup erase
  lookup-erase k j [] = ground arith
  lookup-erase k j ((i, w) ∷ m) =
      ground (arith, eq_iff k j, eq_iff i k, eq_iff i j, lookup-erase k j m)

  pub lookup-retain :
      (p : V → Bool) (k : String) (m : Dict V) → lookup k (retain p m) ≡ keep p (lookup k m)
  unfolding lookup retain
  lookup-retain p k [] = refl
  lookup-retain p k ((j, w) ∷ m) =
      ground (arith, lookup-retain p k m, lookup-erase j k (retain p m))

  pub lookup-insert_self : (k : String) (v : V) (m : Dict V) → lookup k (insert k v m) ≡ some v
  lookup-insert_self k v m = ground (arith, lookup-insert k k v m, eq_iff k k)

  pub lookup-erase_self : (k : String) (m : Dict V) → lookup k (erase k m) ≡ none
  lookup-erase_self k m = ground (arith, lookup-erase k k m, eq_iff k k)

  -- Some entry of the map satisfies `P`.
  abbrev pub Any : (String → V → Type 0) → Dict V → Type 0
  Any P [] = ⊥
  Any P ((j, w) ∷ m) = P j w ⊎ Any P m

  -- `for k, v := range m { m[k] = f(v) }`
  unfoldable pub map_values : (V → V) → Dict V → Dict V
  map_values f [] = []
  map_values f ((j, w) ∷ m) = (j, f w) ∷ map_values f m

  abbrev pub map_value : (V → V) → Option V → Option V
  map_value f none = none
  map_value f (some v) = some (f v)

  pub lookup-map_values :
      (f : V → V) (k : String) (m : Dict V) → lookup k (map_values f m) ≡ map_value f (lookup k m)
  unfolding lookup map_values
  lookup-map_values f k [] = refl
  lookup-map_values f k ((j, w) ∷ m) = ground (arith, lookup-map_values f k m)

  -- `P` holds of every entry.
  abbrev pub Each : (String → V → Type 0) → Dict V → Type ℓ
  Each P m = (k : String) (v : V) → lookup k m ≡ some v → P k v

  pub Each-nil : (P : String → V → Type 0) → Each P []
  unfolding lookup
  Each-nil P k v h = absurd (ground arith)

  pub Each-insert :
      (P : String → V → Type 0) (k : String) (v : V) (m : Dict V)
      → P k v
      → Each P m
      → Each P (insert k v m)
  Each-insert P k v m new old j w h = elim (Bool-cases (str_eq k j)) [
    | inl same ↦
        let e : v ≡ w = ground (arith, lookup-insert k j v m) in
        subst₂ P ((eq_iff k j).0 same) e new
    | inr other ↦ old j w (rw (lookup-insert, other) at h)
  ]

  pub Each-erase :
      (P : String → V → Type 0) (k : String) (m : Dict V) → Each P m → Each P (erase k m)
  Each-erase P k m old j w h = elim (Bool-cases (str_eq k j)) [
    | inl same ↦ absurd (ground (arith, lookup-erase k j m))
    | inr other ↦ old j w (rw (lookup-erase, other) at h)
  ]

  keep-some : (p : V → Bool) (o : Option V) (v : V) → keep p o ≡ some v → o ≡ some v
  keep-some p none v h = ground arith
  keep-some p (some w) v h = ground arith

  pub Each-retain :
      (P : String → V → Type 0) (p : V → Bool) (m : Dict V) → Each P m → Each P (retain p m)
  Each-retain P p m old j w h = old j w (keep-some p (lookup j m) w (rw lookup-retain at h))
