-- ===== src/Common/Maps.antt =====
-- std::map and std::set over ordered keys, as association lists in the order of the keys, and the
-- objects behind shared pointers, as a store from references to values.
use Prim.Native.Nat.{ℕ, zero, suc, ◌≤◌, ◌<◌}
use mathlib.Core.Path.{◌≡◌, refl}
use mathlib.Core.Logic.{◌↔◌}
use mathlib.Core.Bool.{Bool, true, false}
use mathlib.Core.List.{List, [], ◌∷◌}
use mathlib.Core.Option.{Option, none, some}
use native.Mathlib.Omega.{arith}
use r_nat.Common.Tests.{ltb, ◌==◌, if◌then◌else◌, is_some}
use r_nat.Common.Lists.{length, get_elem?}

-- The keys of a map: an order and an equality test.
pub record Key (K : Type 0) : Type 0 where
  pub same : K → K → Bool
  pub before : K → K → Bool
  pub same_iff : (a b : K) → (same a b ≡ true) ↔ (a ≡ b)

pub ==_iff : (a b : ℕ) → ((a == b) ≡ true) ↔ (a ≡ b)
==_iff a b = ground arith

instance abbrev pub nat_key : Key ℕ
nat_key = record { same = ◌==◌; before = ltb; same_iff = ==_iff }

abbrev pub Map : Type 0 → Type 0 → Type 0
Map K V = List (K × V)

module _ {K V : Type 0} ⦃e : Key K⦄ where
  unfoldable pub lookup : K → Map K V → Option V
  lookup k [] = none
  lookup k ((j, v) ∷ m) = if e.same j k then some v else lookup k m

  unfoldable pub insert : K → V → Map K V → Map K V
  insert k v [] = (k, v) ∷ []
  insert k v ((j, w) ∷ m) =
      let rest = insert k v m in
      if e.same j k then (k, v) ∷ m else if e.before k j then (k, v) ∷ (j, w) ∷ m else (j, w) ∷ rest

  unfoldable pub erase : K → Map K V → Map K V
  erase k [] = []
  erase k ((j, w) ∷ m) = let rest = erase k m in if e.same j k then rest else (j, w) ∷ rest

  pub lookup-insert :
      (k j : K) (v : V) (m : Map K V)
      → lookup j (insert k v m) ≡ (if e.same k j then some v else lookup j m)
  unfolding lookup insert
  lookup-insert k j v [] = refl
  lookup-insert k j v ((i, w) ∷ m) =
      ground (arith, e.same_iff i k, e.same_iff k j, e.same_iff i j, lookup-insert k j v m)

  pub lookup-erase :
      (k j : K) (m : Map K V) → lookup j (erase k m) ≡ (if e.same k j then none else lookup j m)
  unfolding lookup erase
  lookup-erase k j [] = ground arith
  lookup-erase k j ((i, w) ∷ m) =
      ground (arith, e.same_iff i k, e.same_iff k j, e.same_iff i j, lookup-erase k j m)

  -- What stands at an index is found by its key.
  pub lookup-get_elem? :
      (m : Map K V) (i : ℕ) (k : K) (v : V)
      → get_elem? m i ≡ some (k, v)
      → is_some (lookup k m) ≡ true
  unfolding lookup
  lookup-get_elem? [] i k v h = cc
  lookup-get_elem? ((j, w) ∷ m) zero k v h = ground (arith, e.same_iff j k)
  lookup-get_elem? ((j, w) ∷ m) (suc i) k v h = ground (arith, lookup-get_elem? m i k v h)

  pub length-erase-le : (k : K) (m : Map K V) → length (erase k m) ≤ length m
  unfolding erase
  length-erase-le k [] = omega arith
  length-erase-le k ((j, w) ∷ m) = ground (arith, length-erase-le k m)

  pub length-erase-lt :
      (k : K) (m : Map K V) → is_some (lookup k m) ≡ true → length (erase k m) < length m
  unfolding lookup erase
  length-erase-lt k [] h = cc
  length-erase-lt k ((j, w) ∷ m) h = ground (arith, length-erase-lt k m, length-erase-le k m)

  pub length-insert_new :
      (k : K) (v : V) (m : Map K V)
      → is_some (lookup k m) ≡ false
      → length (insert k v m) ≡ suc (length m)
  unfolding lookup insert
  length-insert_new k v [] h = refl
  length-insert_new k v ((j, w) ∷ m) h = ground (arith, length-insert_new k v m)

-- A std::set.
abbrev pub KeySet : Type 0
KeySet = Map ℕ (Unit {0})

abbrev pub contains : ℕ → KeySet → Bool
contains k m = is_some (lookup k m)

-- The objects behind shared pointers.
abbrev pub Store : Type 0 → Type 0
Store A = ℕ → A

abbrev pub update : {A : Type 0} → Store A → ℕ → A → Store A
update f p v q = if p == q then v else f q
