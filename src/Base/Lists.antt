-- ===== src/Base/Lists.antt =====
-- Lists over the native numbers, Go's maps as association lists, and membership by recursion.
use Prim.Native.Nat.{ℕ, suc}
use Prim.Native.String.{String}
use mathlib.Core.Path.{◌≡◌, refl}
use mathlib.Core.Bool.{Bool, true, false}
use mathlib.Core.Option.{Option, none, some}
use mathlib.Core.List.{List, [], ◌∷◌}
use native.Mathlib.Omega.{arith}
use text.Mathlib.TextEquality.{eq_iff}
use csi_bizflycloud.Base.Tests.{◌==◌, if◌then◌else◌}

module _ {ℓ} {A : Type ℓ} where
  abbrev pub length : List A → ℕ
  length [] = 0
  length (x ∷ xs) = suc (length xs)

  -- The entries that pass a test, in order.
  abbrev pub select : (A → Bool) → List A → List A
  select p [] = []
  select p (x ∷ xs) = let rest = select p xs in if p x then x ∷ rest else rest

  -- The first entry that passes a test: a `for … range` loop that returns from its body.
  abbrev pub first : (A → Bool) → List A → Option A
  first p [] = none
  first p (x ∷ xs) = let rest = first p xs in if p x then some x else rest

  -- Whether some entry passes a test.
  abbrev pub any : (A → Bool) → List A → Bool
  any p [] = false
  any p (x ∷ xs) = let rest = any p xs in if p x then true else rest

  -- How many entries pass a test.
  abbrev pub tally : (A → Bool) → List A → ℕ
  tally p [] = 0
  tally p (x ∷ xs) = let rest = tally p xs in if p x then suc rest else rest

  abbrev pub head? : List A → Option A
  head? [] = none
  head? (x ∷ xs) = some x

-- Every entry has the property.
abbrev pub All {ℓ κ} : {A : Type ℓ} → (A → Type κ) → List A → Type κ
All P [] = Unit
All P (x ∷ xs) = P x × All P xs

-- A Go `map[string]string` and the like. Lookups, writes and deletions are all that the program
-- does with most of its maps.
abbrev pub Dict {ℓ} : Type ℓ → Type ℓ
Dict V = List (String × V)

module _ {ℓ} {V : Type ℓ} where
  -- `v, ok := m[key]`
  unfoldable pub lookup : String → Dict V → Option V
  lookup key [] = none
  lookup key ((name, value) ∷ rest) = if name == key then some value else lookup key rest

  -- `m[key] = value`: the entry is replaced where it stands, or put at the end.
  unfoldable pub insert : String → V → Dict V → Dict V
  insert key value [] = (key, value) ∷ []
  insert key value ((name, old) ∷ rest) =
      let more = insert key value rest in
      if name == key then (key, value) ∷ rest else (name, old) ∷ more

  -- `delete(m, key)`
  unfoldable pub remove : String → Dict V → Dict V
  remove key [] = []
  remove key ((name, value) ∷ rest) =
      let more = remove key rest in if name == key then more else (name, value) ∷ more

  -- What is found after a write and after a deletion.
  lookup_after :
      (key other : String) (value : V) (dict : Dict V)
      → (lookup other (insert key value dict)
          ≡ (if key == other then some value else lookup other dict))
        × (lookup other (remove key dict) ≡ (if key == other then none else lookup other dict))
  unfolding lookup insert remove
  lookup_after key other value [] = (refl, ground arith)
  lookup_after key other value ((name, old) ∷ rest) =
      let (written, deleted) = lookup_after key other value rest in
      let keys = eq_iff key other in
      let first_key = eq_iff name key in
      let first_other = eq_iff name other in
      (
        ground (arith, keys, first_key, first_other, written),
        ground (arith, keys, first_key, first_other, deleted),
      )

  pub lookup-insert :
      (key other : String) (value : V) (dict : Dict V)
      → lookup other (insert key value dict)
        ≡ (if key == other then some value else lookup other dict)
  lookup-insert key other value dict = (lookup_after key other value dict).0

  pub lookup-remove :
      (key other : String) (dict : Dict V)
      → lookup other (remove key dict) ≡ (if key == other then none else lookup other dict)
  unfolding lookup remove
  lookup-remove key other [] = ground arith
  lookup-remove key other ((name, value) ∷ rest) =
      (lookup_after key other value ((name, value) ∷ rest)).1

abbrev pub or_else {ℓ} : {A : Type ℓ} → A → Option A → A
or_else a none = a
or_else a (some b) = b

-- `m[k]` of a `map[string]string`: the empty string for a missing key.
abbrev pub index : Dict String → String → String
index m k = or_else "" (lookup k m)
