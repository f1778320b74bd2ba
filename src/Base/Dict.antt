-- ===== src/Base/Dict.antt =====
-- Maps with keys that are texts, as association lists that hold each key once.
use text.Mathlib.Text.{◌==◌ as str_eq}
use text.Mathlib.TextEquality.{eq_iff}
use Prim.Native.String.{String}
use mathlib.Core.Path.{subst, ◌≡◌, refl, sym, ap, ◌∙◌}
use mathlib.Core.Logic.{inl, inr}
use mathlib.Core.Bool.{true, false}
use mathlib.Core.Option
use mathlib.Core.Option.{Option, none, some}
use mathlib.Core.List.{List, [], ◌∷◌}
use native.Mathlib.Omega.{arith}
use ethereum_prototype.Base.Tests.{if◌then◌else◌, Bool-cases}

abbrev pub Dict {ℓ} : Type ℓ → Type ℓ
Dict V = List (String × V)

-- A text is not two texts.
swap {ℓ} :
    {A : Type ℓ} (i k j : String) (x y z : A)
    → str_eq i k ≡ false
    → (if str_eq i j then x else if str_eq k j then y else z)
      ≡ (if str_eq k j then y else if str_eq i j then x else z)
swap i k j x y z apart = elim (Bool-cases (str_eq i j)) [
  | inr other ↦ rw other refl
  | inl same ↦ elim (Bool-cases (str_eq k j)) [
    | inr other ↦ rw (same, other) refl
    | inl same' ↦
        let equal : str_eq i k ≡ true =
          (eq_iff i k).1 ((eq_iff i j).0 same ∙ sym ((eq_iff k j).0 same')) in
        cc
  ]
]

module _ {ℓ} {V : Type ℓ} where
  unfoldable pub find : Dict V → String → Option V
  find [] name = none
  find ((other, v) ∷ d) name = if str_eq other name then some v else find d name

  -- An entry under a name that is taken replaces the old one.
  unfoldable pub add : Dict V → String → V → Dict V
  add [] name v = (name, v) ∷ []
  add ((other, old) ∷ d) name v =
      if str_eq other name then (name, v) ∷ d else (other, old) ∷ add d name v

  -- `d.extend(more)`
  unfoldable pub extend : Dict V → Dict V → Dict V
  unfolding add
  extend d [] = d
  extend d ((name, v) ∷ more) = extend (add d name v) more

  pub find-add :
      (d : Dict V) (k j : String) (v : V)
      → find (add d k v) j ≡ (if str_eq k j then some v else find d j)
  unfolding find add
  find-add [] k j v = refl
  find-add ((i, w) ∷ d) k j v =
      let ih = find-add d k j v in
      elim (Bool-cases (str_eq i k)) [
        | inl here ↦ rw (here, (eq_iff i k).0 here) (ground arith)
        | inr there ↦ rw (there, find, ih) (swap i k j (some w) (some v) (find d j) there)
      ]

  abbrev pub or_else : Option V → Option V → Option V
  or_else (some v) o = some v
  or_else none o = o

  -- Keys stand once.
  abbrev pub IsDistinct : Dict V → Type ℓ
  IsDistinct [] = Unit
  IsDistinct ((name, v) ∷ d) = (find d name ≡ none) × IsDistinct d

  -- An extension is found under the new keys, and what was there under the others.
  pub find-extend :
      (d more : Dict V) (k : String)
      → IsDistinct more
      → find (extend d more) k ≡ or_else (find more k) (find d k)
  unfolding find extend
  find-extend d [] k h = refl
  find-extend d ((name, v) ∷ more) k h =
      let ih = find-extend (add d name v) more k h.1 in
      let added = find-add d name k v in
      elim (Bool-cases (str_eq name k)) [
        | inl here ↦
            let new : find more k ≡ none =
              subst (λ j. find more j ≡ none) ((eq_iff name k).0 here) h.0 in
            rw (ih, new, added, here) refl
        | inr there ↦ rw there (ih ∙ ap (or_else (find more k)) (rw there at added))
      ]

module _ {ℓ κ} {A : Type ℓ} {B : Type κ} (f : A → B) where
  abbrev pub map_values : Dict A → Dict B
  map_values [] = []
  map_values ((k, a) ∷ d) = (k, f a) ∷ map_values d

  pub find-map_values : (d : Dict A) (k : String) → find (map_values d) k ≡ Option.map f (find d k)
  unfolding find
  find-map_values [] k = refl
  find-map_values ((i, a) ∷ d) k = elim (Bool-cases (str_eq i k)) [
    | inl here ↦ rw here refl
    | inr there ↦ rw there (find-map_values d k)
  ]

  pub map_values-IsDistinct : (d : Dict A) → IsDistinct d → IsDistinct (map_values d)
  map_values-IsDistinct [] h = tt
  map_values-IsDistinct ((i, a) ∷ d) h =
      (find-map_values d i ∙ ap (Option.map f) h.0, map_values-IsDistinct d h.1)
