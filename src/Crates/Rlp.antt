-- ===== src/Crates/Rlp.antt =====
-- The crate `rlp` (Cargo.toml) as the program calls it. A stream is the record of the calls that
-- build it, and the encoding of a finished stream is an operation of the crate.
pub mod Sample
use ethereum_prototype.Base.{
  ℕ, ◌*◌, ◌^◌, ◌<◌, ◌≡◌, Bool, true, false, Option, some, List, [], ◌∷◌, map, push, length,
  get_elem?, Result, ok,
}

-- What `append` is called with: an unsigned integer of any width, a byte string, or a hash or
-- address of so many bytes.
pub data Item : Type 0 where
  uint : ℕ → Item
  bytes : List ℕ → Item
  fixed : ℕ → ℕ → Item

pub data Token : Type 0 where
  list_header : ℕ → Token
  item : Item → Token

abbrev pub RlpStream : Type 0
RlpStream = List Token

-- `s.begin_list(n)`
unfoldable pub begin_list : RlpStream → ℕ → RlpStream
begin_list s n = push s (list_header n)

-- `s.append(v)`
infixl 20 ◌◃◌
unfoldable pub ◌◃◌ : RlpStream → Item → RlpStream
s ◃ v = push s (item v)

-- `s.append_internal(v)`
unfoldable pub append_internal : RlpStream → Item → RlpStream
append_internal s v = push s (item v)

-- `DecoderError`: the two errors that the program names, and the others by number.
pub data DecoderError : Type 0 where
  rlp_incorrect_list_len rlp_expected_to_be_data : DecoderError
  other : ℕ → DecoderError

pub record Rlp : Type 0 where
  -- `s.out()`, `s.as_raw()`
  pub out : RlpStream → List ℕ
  pub is_empty : List ℕ → Bool
  pub is_data : List ℕ → Bool
  pub item_count : List ℕ → Result DecoderError ℕ
  -- `rlp.at(i)`
  pub at : List ℕ → ℕ → Result DecoderError (List ℕ)
  -- `as_val` at an unsigned integer of so many bits
  pub as_uint : ℕ → List ℕ → Result DecoderError ℕ
  -- `as_val` at a hash of so many bytes
  pub as_fixed : ℕ → List ℕ → Result DecoderError ℕ
  -- `as_val` at `Vec<u8>`
  pub as_bytes : List ℕ → Result DecoderError (List ℕ)

-- The encoding of one item, and of a list of items.
abbrev pub out_item : Rlp → Item → List ℕ
out_item R v = R.out (item v ∷ [])

abbrev pub out_list : Rlp → List Item → List ℕ
out_list R vs = R.out (list_header (length vs) ∷ map item vs)

-- Decoding takes apart what encoding built.
pub record IsLawful (R : Rlp) : Type 0 where
  pub item_count-out_list : (vs : List Item) → R.item_count (out_list R vs) ≡ ok (length vs)
  pub at-out_list :
      (vs : List Item) (i : ℕ) (v : Item)
      → get_elem? vs i ≡ some v
      → R.at (out_list R vs) i ≡ ok (out_item R v)
  pub as_uint-out : (w n : ℕ) → n < 2 ^ w → R.as_uint w (out_item R (uint n)) ≡ ok n
  pub as_fixed-out : (w n : ℕ) → n < 2 ^ (8 * w) → R.as_fixed w (out_item R (fixed w n)) ≡ ok n
  pub as_bytes-out : (b : List ℕ) → R.as_bytes (out_item R (bytes b)) ≡ ok b
  pub is_empty-out_nil : R.is_empty (out_item R (bytes [])) ≡ true
  pub is_data-out_nil : R.is_data (out_item R (bytes [])) ≡ true
  pub is_empty-out_fixed : (w n : ℕ) → 0 < w → R.is_empty (out_item R (fixed w n)) ≡ false
