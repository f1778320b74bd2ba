-- ===== src/RpcTypes/Json.antt =====
-- src/rpc_types.rs: the JSON of `Rich` and `BlockTransactions`. The JSON of what they hold is
-- derived code, which is a parameter here, as is the serializer that they are given.
use mathlib.Core.Option
use ethereum_prototype.Base.{
  ℕ, ◌≡◌, ◌≢◌, refl, ap, ◌∙◌, String, Option, none, some, List, [], Result, ok, err, Result-cases,
  inl, inr,
}
use ethereum_prototype.Base.Dict.{
  Dict, find, extend, IsDistinct, or_else, find-extend, map_values, find-map_values,
  map_values-IsDistinct,
}
use ethereum_prototype.Crates.Json.{Value, object, other, Json, IsLawful}
use ethereum_prototype.RpcTypes.{Rich, RpcTransaction, BlockTransactions, hashes, full}

-- `Deref for Rich<T>`
abbrev pub deref : {T : Type 0} → Rich T → T
deref r = r.inner

-- The `if let` of `serialize`, which joins two objects.
abbrev join : {A : Type 0} → Result ℕ (Value A) → Result ℕ (Value A) → Option (Dict A)
join (ok (object value)) (ok (object extras)) = some (extend value extras)
join (ok (object value)) (ok (other a)) = none
join (ok (object value)) (err e) = none
join (ok (other a)) extras = none
join (err e) extras = none

module _ {A T X S : Type 0} (J : Json A) (to_value : T → Result ℕ (Value A))
    (serializer : Value A → Result X S) (custom : String → X) where
  -- `Serialize for Rich<T>`
  unfoldable pub serialize : Rich T → Result X S
  serialize r = elim (join (to_value r.inner) (J.map_to_value r.extra_info)) [
    | some value ↦ serializer (object value)
    | none ↦ err (custom "Unserializable structures: expected objects")
  ]

  -- A rich value whose inner value is not written as an object is not written at all.
  pub serialize_refused :
      (r : Rich T)
      → ((inner : Dict A) → to_value r.inner ≢ ok (object inner))
      → serialize r ≡ err (custom "Unserializable structures: expected objects")
  unfolding serialize
  serialize_refused r h = elim (Result-cases (to_value r.inner)) [
    | inl (e, failed) ↦ rw (failed, serialize) refl
    | inr (object inner, written) ↦ absurd (h inner written)
    | inr (other a, written) ↦ rw (written, serialize) refl
  ]

  module _ (L : IsLawful J) (r : Rich T) where
    -- The JSON of a rich value whose inner value is written as an object is an object, in which
    -- the extra information stands under its keys, and what the inner value has under all others.
    pub serialize_lem :
        (inner : Dict A)
        → to_value r.inner ≡ ok (object inner)
        → IsDistinct r.extra_info
        → (value : Dict A) × (serialize r ≡ serializer (object value))
          × ((key : String)
              → find value key
                ≡ or_else (Option.map L.text (find r.extra_info key)) (find inner key))
    unfolding serialize
    serialize_lem inner h distinct = (
      extend inner (map_values L.text r.extra_info),
      rw (h, L.map_to_value-object r.extra_info, serialize) refl,
      λ key.
          find-extend inner (map_values L.text r.extra_info) key
            (map_values-IsDistinct L.text r.extra_info distinct)
          ∙ ap (λ o. or_else o (find inner key)) (find-map_values L.text r.extra_info key),
    )

    -- Without extra information a rich value is written as its inner value is.
    pub serialize_plain :
        (inner : Dict A)
        → to_value r.inner ≡ ok (object inner)
        → r.extra_info ≡ []
        → serialize r ≡ serializer (object inner)
    unfolding serialize extend
    serialize_plain inner h none_extra =
        rw (h, L.map_to_value-object r.extra_info, none_extra, serialize) refl

-- `Serialize for BlockTransactions`
module _ {X S : Type 0} (serialize_hashes : List ℕ → Result X S)
    (serialize_full : List RpcTransaction → Result X S) where
  unfoldable pub serialize_transactions : BlockTransactions → Result X S
  serialize_transactions (hashes hs) = serialize_hashes hs
  serialize_transactions (full ts) = serialize_full ts
