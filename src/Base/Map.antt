-- ===== src/Base/Map.antt =====
-- `HashMap` and `BTreeMap` with keys that are numbers. Nothing in the program depends on the order
-- in which a map is iterated, so a map is an association list, used through its laws.
use Prim.Native.Nat.{ℕ}
use mathlib.Core.Path.{◌≡◌, refl}
use mathlib.Core.Logic.{◌⊎◌}
use mathlib.Core.Bool.{Bool, true, false, ◌&&◌}
use mathlib.Core.Option.{Option, none, some}
use mathlib.Core.List.{List, [], ◌∷◌}
use native.Mathlib.Omega.{arith}
use ethereum_prototype.Base.Tests.{◌==◌, if◌then◌else◌}

abbrev pub Map {ℓ} : Type ℓ → Type ℓ
Map V = List (ℕ × V)

abbrev contains : List ℕ → ℕ → Bool
contains [] k = false
contains (j ∷ ks) k = if j == k then true else contains ks k

module _ {ℓ} {V : Type ℓ} where
  -- `m.get(&k)`
  unfoldable pub get : Map V → ℕ → Option V
  get [] k = none
  get ((j, v) ∷ m) k = if j == k then some v else get m k

  -- `m.insert(k, v)`
  unfoldable pub insert : Map V → ℕ → V → Map V
  insert [] k v = (k, v) ∷ []
  insert ((j, w) ∷ m) k v = if j == k then (k, v) ∷ m else (j, w) ∷ insert m k v

  -- `m.remove(&k)`
  unfoldable pub remove : Map V → ℕ → Map V
  remove [] k = []
  remove ((j, w) ∷ m) k = let rest = remove m k in if j == k then rest else (j, w) ∷ rest

  -- `m.iter().filter(|(_, v)| p(v)).map(|(k, _)| k).collect()`: an entry is read as `get` reads it.
  abbrev pub holds : (V → Bool) → Option V → Bool
  holds p none = false
  holds p (some v) = p v

  keys_among : Map V → (V → Bool) → Map V → List ℕ
  keys_among m p [] = []
  keys_among m p ((j, w) ∷ r) =
      let rest = keys_among m p r in if holds p (get m j) then j ∷ rest else rest

  unfoldable pub keys_where : Map V → (V → Bool) → List ℕ
  unfolding get keys_among
  keys_where m p = keys_among m p m

  -- `for k in ks { m.remove(&k); }`
  unfoldable pub remove_all : Map V → List ℕ → Map V
  unfolding remove
  remove_all m [] = m
  remove_all m (k ∷ ks) = remove_all (remove m k) ks

  pub get-insert :
      (m : Map V) (k j : ℕ) (v : V) → get (insert m k v) j ≡ (if k == j then some v else get m j)
  unfolding get insert
  get-insert [] k j v = refl
  get-insert ((i, w) ∷ m) k j v = ground (arith, get-insert m k j v)

  pub get-remove : (m : Map V) (k j : ℕ) → get (remove m k) j ≡ (if k == j then none else get m j)
  unfolding get remove
  get-remove [] k j = ground arith
  get-remove ((i, w) ∷ m) k j = ground (arith, get-remove m k j)

  get-remove_all_list :
      (m : Map V) (ks : List ℕ) (j : ℕ)
      → get (remove_all m ks) j ≡ (if contains ks j then none else get m j)
  unfolding remove_all
  get-remove_all_list m [] j = refl
  get-remove_all_list m (k ∷ ks) j =
      ground (arith, get-remove_all_list (remove m k) ks j, get-remove m k j)

  abbrev is_some : Option V → Bool
  is_some none = false
  is_some (some v) = true

  contains-keys_among :
      (m : Map V) (p : V → Bool) (r : Map V) (j : ℕ)
      → contains (keys_among m p r) j ≡ (is_some (get r j) && holds p (get m j))
  unfolding keys_among get
  contains-keys_among m p [] j = refl
  contains-keys_among m p ((i, w) ∷ r) j = ground (arith, contains-keys_among m p r j)

  -- What is left when the entries that pass `p` have been removed.
  pub get-remove_all :
      (m : Map V) (p : V → Bool) (j : ℕ)
      → get (remove_all m (keys_where m p)) j ≡ (if holds p (get m j) then none else get m j)
  unfolding keys_where
  get-remove_all m p j =
      ground (arith, get-remove_all_list m (keys_where m p) j, contains-keys_among m p m j)

  -- What is found after an insertion is what was inserted, or was there before.
  pub get-insert_inv :
      (m : Map V) (k j : ℕ) (v : V) {w : V}
      → get (insert m k v) j ≡ some w
      → ((k ≡ j) × (v ≡ w)) ⊎ (get m j ≡ some w)
  get-insert_inv m k j v h = ground (arith, get-insert m k j v)

  pub get-insert_self : (m : Map V) (k : ℕ) (v : V) → get (insert m k v) k ≡ some v
  get-insert_self m k v = ground (arith, get-insert m k k v)

  -- An insertion removes no key.
  pub get-insert_keeps :
      (m : Map V) (k j : ℕ) (v : V) {w : V}
      → get m j ≡ some w
      → (x : V) × (get (insert m k v) j ≡ some x)
  get-insert_keeps m k j v {w} h = (if k == j then v else w, ground (arith, get-insert m k j v))

pub get-nil {ℓ} : {V : Type ℓ} (k : ℕ) → get {V = V} [] k ≡ none
unfolding get
get-nil k = refl

pub ruleset map_laws = (get-insert, get-remove, get-nil, get-remove_all)
