-- ===== src/Prelude/Maps.antt =====
-- `std::unordered_map` as an association list with one entry for a key.
use Prim.Native.Nat.{◌+◌}
use mathlib.Core.Path.{◌≡◌, refl}
use mathlib.Core.Option.{Option, none, some}
use mathlib.Core.List.{List, [], ◌∷◌}
use native.Mathlib.Omega.{arith}
use package.grlx_rpc.Prelude.Tests.{Eq, ◌==◌, if◌then◌else◌}
use package.grlx_rpc.Prelude.Lists.{length}

abbrev pub Map {ℓ κ} : Type ℓ → Type κ → Type (ℓ ⊔ κ)
Map K V = List (K × V)

module _ {ℓ κ} {K : Type ℓ} {V : Type κ} ⦃e : Eq K⦄ where
  -- `find`, with the entry for the iterator.
  unfoldable pub lookup : K → Map K V → Option V
  lookup key [] = none
  lookup key ((k, value) ∷ rest) = if k == key then some value else lookup key rest

  -- `insert_or_assign`, and an assignment to `m[k]`.
  unfoldable pub insert : K → V → Map K V → Map K V
  insert key value [] = (key, value) ∷ []
  insert key value ((k, old) ∷ rest) =
      if k == key then (key, value) ∷ rest else (k, old) ∷ insert key value rest

  unfoldable pub erase : K → Map K V → Map K V
  erase k [] = []
  erase k ((j, w) ∷ m) = let rest = erase k m in if j == k then rest else (j, w) ∷ rest

  pub lookup-insert :
      (key asked : K) (value : V) (m : Map K V)
      → lookup asked (insert key value m) ≡ (if key == asked then some value else lookup asked m)
  unfolding insert lookup
  lookup-insert key asked value [] = refl
  lookup-insert key asked value ((k, old) ∷ rest) = ground (
    arith,
    lookup-insert key asked value rest,
    e.same_iff k key,
    e.same_iff k asked,
    e.same_iff key asked,
  )

  pub lookup-erase :
      (k j : K) (m : Map K V) → lookup j (erase k m) ≡ (if k == j then none else lookup j m)
  unfolding lookup erase
  lookup-erase k j [] = ground arith
  lookup-erase k j ((i, w) ∷ m) =
      ground (arith, e.same_iff k j, e.same_iff i k, e.same_iff i j, lookup-erase k j m)

  -- One entry for a key.
  abbrev pub HasUniqueKeys : Map K V → Type κ
  HasUniqueKeys [] = Unit
  HasUniqueKeys ((k, v) ∷ m) = (lookup k m ≡ none) × HasUniqueKeys m

  pub insert-HasUniqueKeys :
      (k : K) (v : V) (m : Map K V) → HasUniqueKeys m → HasUniqueKeys (insert k v m)
  unfolding insert
  insert-HasUniqueKeys k v [] u = (unfold lookup in refl, tt)
  insert-HasUniqueKeys k v ((j, w) ∷ m) u =
      ground
        (arith, e.same_iff j k, e.same_iff k j, lookup-insert k j v m, insert-HasUniqueKeys k v m)

  pub erase-HasUniqueKeys : (k : K) (m : Map K V) → HasUniqueKeys m → HasUniqueKeys (erase k m)
  unfolding erase
  erase-HasUniqueKeys k [] u = tt
  erase-HasUniqueKeys k ((j, w) ∷ m) u = ground (arith, lookup-erase k j m, erase-HasUniqueKeys k m)

  erase_missing : (k : K) (m : Map K V) → lookup k m ≡ none → erase k m ≡ m
  unfolding lookup erase
  erase_missing k [] h = refl
  erase_missing k ((j, w) ∷ m) h = ground (arith, erase_missing k m)

  pub length-insert_new :
      (k : K) (v : V) (m : Map K V) → lookup k m ≡ none → length (insert k v m) ≡ length m + 1
  unfolding lookup insert
  length-insert_new k v [] h = omega arith
  length-insert_new k v ((j, w) ∷ m) h = ground (arith, length-insert_new k v m)

  pub length-erase_found :
      (k : K) (v : V) (m : Map K V)
      → HasUniqueKeys m
      → lookup k m ≡ some v
      → length (erase k m) + 1 ≡ length m
  unfolding lookup erase
  length-erase_found k v [] u h = cc
  length-erase_found k v ((j, w) ∷ m) u h =
      ground (arith, e.same_iff j k, erase_missing k m, length-erase_found k v m)
