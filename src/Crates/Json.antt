-- ===== src/Crates/Json.antt =====
-- The crate `serde_json` as src/rpc_types.rs calls it: values, of which the program only tells the
-- objects from the others, and `to_value` of a map of texts.
use ethereum_prototype.Base.{ℕ, ◌≡◌, String, Result, ok}
use ethereum_prototype.Base.Dict.{Dict, map_values}

-- `Value`: an object with its entries, or something else. What stands in an entry, and what the
-- something else is, is an `A`.
pub data Value (A : Type 0) : Type 0 where
  object : Dict A → Value A
  other : A → Value A

-- `to_value` of a `BTreeMap<String, String>`; the error is a number.
pub record Json (A : Type 0) : Type 0 where
  pub map_to_value : Dict String → Result ℕ (Value A)

-- A map of texts becomes an object with the same keys.
pub record IsLawful {A : Type 0} (J : Json A) : Type 0 where
  pub text : String → A
  pub map_to_value-object : (d : Dict String) → J.map_to_value d ≡ ok (object (map_values text d))
