-- ===== src/Prelude/Dict.antt =====
-- Python's dictionaries with text keys: association lists in insertion order.
use mathlib.Core.Path.{◌≡◌, refl, subst}
use mathlib.Core.Logic.{inl, inr}
use mathlib.Core.Bool.{false}
use mathlib.Core.Option.{Option, none, some}
use mathlib.Core.List.{List, [], ◌∷◌}
use Prim.Native.String.{String}
use native.Mathlib.Omega.{arith}
use text.Mathlib.Text.{◌==◌}
use text.Mathlib.TextEquality.{eq_iff}
use text.Mathlib.TextPositions.{eq_refl}
use manufacturing_mas.Prelude.Tests.{if◌then◌else◌, Bool-cases}

abbrev pub Dict {ℓ} : Type ℓ → Type ℓ
Dict V = List (String × V)

module _ {ℓ} {V : Type ℓ} where
  -- `d.get(key)`
  unfoldable pub lookup : String → Dict V → Option V
  lookup key [] = none
  lookup key (entry ∷ rest) = if entry.0 == key then some entry.1 else lookup key rest

  -- `d[key] = value`: a known key keeps its place.
  unfoldable pub insert : String → V → Dict V → Dict V
  insert key value [] = (key, value) ∷ []
  insert key value (entry ∷ rest) =
      if entry.0 == key then (key, value) ∷ rest else entry ∷ insert key value rest

  pub lookup-insert_self :
      (key : String) (value : V) (d : Dict V) → lookup key (insert key value d) ≡ some value
  unfolding lookup insert
  lookup-insert_self key value [] = simp eq_refl
  lookup-insert_self key value (entry ∷ rest) =
      ground (arith, eq_refl key, lookup-insert_self key value rest)

  lookup-insert_other :
      (key other : String) (value : V) (d : Dict V)
      → (key == other) ≡ false
      → lookup other (insert key value d) ≡ lookup other d
  unfolding lookup insert
  lookup-insert_other key other value [] apart = rw apart refl
  lookup-insert_other key other value (entry ∷ rest) apart =
      let before = lookup-insert_other key other value rest apart in
      ground (arith, before, eq_iff entry.0 key, eq_iff entry.0 other, eq_iff key other)

  -- What a write does to each key.
  pub lookup-insert :
      (key j : String) (value : V) (d : Dict V)
      → lookup j (insert key value d) ≡ (if key == j then some value else lookup j d)
  lookup-insert key j value d = elim (Bool-cases (key == j)) [
    | inl same ↦ rw same (
        subst (λ x. lookup x (insert key value d) ≡ some value) ((eq_iff key j).0 same)
          (lookup-insert_self key value d))
    | inr apart ↦ rw apart (lookup-insert_other key j value d apart)
  ]

-- A property of every entry.
module _ {ℓ κ} {V : Type ℓ} (P : V → Type κ) where
  abbrev pub AllValues : List (String × V) → Type κ
  AllValues [] = Unit
  AllValues ((k, v) ∷ m) = P v × AllValues m

  pub AllValues-lookup :
      (k : String) (m : List (String × V)) (v : V) → AllValues m → lookup k m ≡ some v → P v
  unfolding lookup
  AllValues-lookup k [] v h e = cc
  AllValues-lookup k ((j, w) ∷ m) v h e = ground (arith, AllValues-lookup k m v h.1)

  pub AllValues-insert :
      (k : String) (v : V) (m : List (String × V)) → P v → AllValues m → AllValues (insert k v m)
  unfolding insert
  AllValues-insert k v [] p h = (p, tt)
  AllValues-insert k v ((j, w) ∷ m) p h = ground (arith, AllValues-insert k v m p h.1)

pub AllValues-map {ℓ κ μ} :
    {V : Type ℓ} (P : V → Type κ) (Q : V → Type μ) (m : List (String × V))
    → ((v : V) → P v → Q v)
    → AllValues P m
    → AllValues Q m
AllValues-map P Q [] f h = tt
AllValues-map P Q ((k, v) ∷ m) f h = (f v h.0, AllValues-map P Q m f h.1)
