-- ===== src/Base/Lists.antt =====
-- Rust's `Vec` as a list: measured and indexed by native numbers, grown at its end.
use Prim.Native.Nat.{ℕ, zero, suc, ◌+◌, ◌≤◌, ◌<◌}
use mathlib.Core.Path.{◌≡◌, refl, ap}
use mathlib.Core.Logic.{◌⊎◌}
use mathlib.Core.List.{List, [], ◌∷◌, ◌++◌}
use mathlib.Core.Option.{Option, none, some}
use native.Mathlib.Omega.{arith}
use ethereum_prototype.Base.Tests.{◌==◌, if◌then◌else◌}

module _ {ℓ} {A : Type ℓ} where
  abbrev pub length : List A → ℕ
  length [] = 0
  length (x ∷ xs) = suc (length xs)

  -- `v.get(i)`
  abbrev pub get_elem? : List A → ℕ → Option A
  get_elem? [] i = none
  get_elem? (x ∷ xs) zero = some x
  get_elem? (x ∷ xs) (suc i) = get_elem? xs i

  -- `v[i] = a`, for an index in range
  abbrev pub set : List A → ℕ → A → List A
  set [] i a = []
  set (x ∷ xs) zero a = a ∷ xs
  set (x ∷ xs) (suc i) a = x ∷ set xs i a

  -- `v.last()`
  abbrev pub get_last? : List A → Option A
  get_last? [] = none
  get_last? (x ∷ []) = some x
  get_last? (x ∷ y ∷ xs) = get_last? (y ∷ xs)

  -- `v.push(a)`
  abbrev pub push : List A → A → List A
  push xs a = xs ++ a ∷ []

  pub length-append : (xs ys : List A) → length (xs ++ ys) ≡ length xs + length ys
  length-append [] ys = omega arith
  length-append (x ∷ xs) ys = omega (arith, length-append xs ys)

  pub length-push : (xs : List A) (a : A) → length (push xs a) ≡ length xs + 1
  length-push [] a = omega arith
  length-push (x ∷ xs) a = omega (arith, length-push xs a)

  pub get_last?-push : (xs : List A) (a : A) → get_last? (push xs a) ≡ some a
  get_last?-push [] a = refl
  get_last?-push (x ∷ []) a = refl
  get_last?-push (x ∷ y ∷ xs) a = get_last?-push (y ∷ xs) a

  pub get_elem?-push :
      (xs : List A) (a : A) (i : ℕ)
      → get_elem? (push xs a) i ≡ (if i == length xs then some a else get_elem? xs i)
  get_elem?-push [] a zero = refl
  get_elem?-push [] a (suc i) = ground arith
  get_elem?-push (x ∷ xs) a zero = ground arith
  get_elem?-push (x ∷ xs) a (suc i) = ground (arith, get_elem?-push xs a i)

  pub get_elem?-push_inv :
      (xs : List A) (a : A) (i : ℕ) {b : A}
      → get_elem? (push xs a) i ≡ some b
      → ((i ≡ length xs) × (a ≡ b)) ⊎ (get_elem? xs i ≡ some b)
  get_elem?-push_inv xs a i h = ground (arith, get_elem?-push xs a i)

  pub get_elem?-lt : (xs : List A) (i : ℕ) {a : A} → get_elem? xs i ≡ some a → i < length xs
  get_elem?-lt [] i h = ground arith
  get_elem?-lt (x ∷ xs) zero h = omega arith
  get_elem?-lt (x ∷ xs) (suc i) h = omega (arith, get_elem?-lt xs i h)

  pub get_elem?-of_lt : (xs : List A) (i : ℕ) → i < length xs → (a : A) × (get_elem? xs i ≡ some a)
  get_elem?-of_lt [] i h = elim h [ ]
  get_elem?-of_lt (x ∷ xs) zero h = (x, refl)
  get_elem?-of_lt (x ∷ xs) (suc i) h = get_elem?-of_lt xs i (omega arith)

  pub get_elem?-of_le : (xs : List A) (i : ℕ) → length xs ≤ i → get_elem? xs i ≡ none
  get_elem?-of_le [] i h = refl
  get_elem?-of_le (x ∷ xs) zero h = absurd (omega arith)
  get_elem?-of_le (x ∷ xs) (suc i) h = get_elem?-of_le xs i (omega arith)

  -- The last element is the one at the last index.
  pub get_last?-get_elem? :
      (xs : List A) {a : A}
      → get_last? xs ≡ some a
      → (i : ℕ) → suc i ≡ length xs
      → get_elem? xs i ≡ some a
  get_last?-get_elem? [] h i e = ground arith
  get_last?-get_elem? (x ∷ []) h zero e = h
  get_last?-get_elem? (x ∷ []) h (suc i) e = absurd (omega arith)
  get_last?-get_elem? (x ∷ y ∷ xs) h zero e = absurd (omega arith)
  get_last?-get_elem? (x ∷ y ∷ xs) h (suc i) e = get_last?-get_elem? (y ∷ xs) h i (omega arith)

  pub get_last?-index :
      (xs : List A) {a : A} → get_last? xs ≡ some a → (i : ℕ) × (get_elem? xs i ≡ some a)
  get_last?-index [] h = cc
  get_last?-index (x ∷ []) h = (0, h)
  get_last?-index (x ∷ y ∷ xs) h = let (i, e) = get_last?-index (y ∷ xs) h in (suc i, e)

  pub get_last?-of_pos : (xs : List A) → 0 < length xs → (a : A) × (get_last? xs ≡ some a)
  get_last?-of_pos [] h = elim h [ ]
  get_last?-of_pos (x ∷ []) h = (x, refl)
  get_last?-of_pos (x ∷ y ∷ xs) h = get_last?-of_pos (y ∷ xs) (omega arith)

  pub get_elem?-set :
      (xs : List A) (i j : ℕ) (a : A)
      → i < length xs
      → get_elem? (set xs i a) j ≡ (if i == j then some a else get_elem? xs j)
  get_elem?-set [] i j a h = elim h [ ]
  get_elem?-set (x ∷ xs) zero zero a h = refl
  get_elem?-set (x ∷ xs) zero (suc j) a h = ground arith
  get_elem?-set (x ∷ xs) (suc i) zero a h = ground arith
  get_elem?-set (x ∷ xs) (suc i) (suc j) a h = ground (arith, get_elem?-set xs i j a)

module _ {ℓ} {A : Type ℓ} where
  pub get_elem?-set_inv :
      (xs : List A) (i j : ℕ) (a : A) {b : A}
      → i < length xs
      → get_elem? (set xs i a) j ≡ some b
      → ((i ≡ j) × (a ≡ b)) ⊎ (get_elem? xs j ≡ some b)
  get_elem?-set_inv xs i j a h e = ground (arith, get_elem?-set xs i j a)

  pub length-set : (xs : List A) (i : ℕ) (a : A) → length (set xs i a) ≡ length xs
  length-set [] i a = refl
  length-set (x ∷ xs) zero a = refl
  length-set (x ∷ xs) (suc i) a = ap suc (length-set xs i a)

  -- Writing back what stands there changes nothing.
  pub set-get_elem? : (xs : List A) (i : ℕ) {a : A} → get_elem? xs i ≡ some a → set xs i a ≡ xs
  set-get_elem? [] i h = refl
  set-get_elem? (x ∷ xs) zero h = cc
  set-get_elem? (x ∷ xs) (suc i) h = ap (λ r. x ∷ r) (set-get_elem? xs i h)

  pub length-map {κ} :
      {B : Type κ} (xs : List A) (f : A → B) → length (mathlib.Core.List.map f xs) ≡ length xs
  length-map [] f = refl
  length-map (x ∷ xs) f = ap suc (length-map xs f)
