-- ===== src/Crates/Serde.antt =====
-- The crate `serde` as the visitors of src/rpc.rs and src/rpc_types.rs meet it: the entries that a
-- `MapAccess` hands out, the reading of a value at the three types that are asked for, and the end
-- of an object.
use ethereum_prototype.Base.{ℕ, ◌≡◌, String, Bool, Option, none, Result}

-- An access ends, or fails with an error (a number), or hands out a key and then its value.
pub data MapAccess (V : Type 0) : Type 0 where
  done : MapAccess V
  fault : ℕ → MapAccess V
  entry : String → V → MapAccess V → MapAccess V

-- `visitor.next_value()?` at `String`, `H256` and `bool`.
pub record Values (V : Type 0) : Type 0 where
  pub as_string : V → Result ℕ String
  pub as_h256 : V → Result ℕ ℕ
  pub as_bool : V → Result ℕ Bool

-- What `deserialize_any` finds, and calls the visitor with: a text, an object, or something else,
-- which a visitor without a method for it refuses (`invalid_type`).
pub data Any (V : Type 0) : Type 0 where
  a_text : String → Any V
  an_object : MapAccess V → Any V
  something_else : Any V

-- A `Deserializer` closes an object once the visitor has returned a value: from the entries that
-- the visitor left unread it tells whether it refuses the object, and with which error.
pub record Deserializer (V : Type 0) : Type 0 where
  pub end_map : MapAccess V → Option ℕ

-- An object of which nothing is left unread is not refused.
pub record IsLawful {V : Type 0} (D : Deserializer V) : Type 0 where
  pub accepts : D.end_map done ≡ none
