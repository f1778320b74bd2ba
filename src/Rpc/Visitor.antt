-- ===== src/Rpc/Visitor.antt =====
-- src/rpc.rs, `BlockNumberVisitor`: a block number from a JSON string or object.
pub mod Digits
pub mod Numerals
pub mod Objects
pub mod Written
use ethereum_prototype.Base.{
  ℕ, ◌+◌, ◌-◌, ◌*◌, ◌<◌, String, Bool, true, false, ◌&&◌, Option, none, some, List, [], ◌∷◌, Result,
  ok, err, ◌==◌, leb, ltb, if◌then◌else◌,
}
use Prim.Native.Char.{code}
use text.Mathlib.Text.{◌==◌ as str_eq}
use ethereum_prototype.Crates.Serde.{
  MapAccess, done, fault, entry, Values, Any, a_text, an_object, something_else, Deserializer,
}
use ethereum_prototype.Signature.{u64_mod}
use ethereum_prototype.RpcTypes.Text.{starts_with_0x, from_2}
use ethereum_prototype.Rpc.BlockNumber.{BlockNumber, hash, num, latest, earliest, pending}

-- `ParseIntError`
pub data ParseIntError : Type 0 where
  empty invalid_digit pos_overflow : ParseIntError

-- `char::to_digit(16)`
unfoldable pub to_digit : ℕ → Option ℕ
to_digit c =
    if leb b'0' c && leb c b'9'
    then some (c - b'0')
    else if leb b'a' c && leb c b'f'
    then some (c - b'a' + 10)
    else if leb b'A' c && leb c b'F'
    then some (c - b'A' + 10)
    else none

-- The loop of `u64::from_str_radix(_, 16)`, with its checks for overflow.
unfoldable pub parse_digits : ℕ → List ℕ → Result ParseIntError ℕ
parse_digits acc [] = ok acc
parse_digits acc (c ∷ cs) = elim (to_digit c) [
  | none ↦ err invalid_digit
  | some d ↦ if ltb (acc * 16 + d) u64_mod then parse_digits (acc * 16 + d) cs else err pos_overflow
]

-- `u64::from_str_radix(_, 16)`: a sign `+` is allowed before the digits.
unfoldable pub from_str_radix : List ℕ → Result ParseIntError ℕ
unfolding parse_digits
from_str_radix [] = err empty
from_str_radix (c ∷ []) = if c == b'+' then err invalid_digit else parse_digits 0 (c ∷ [])
from_str_radix (c ∷ d ∷ cs) = parse_digits 0 (if c == b'+' then d ∷ cs else c ∷ d ∷ cs)

pub data VisitError : Type 0 where
  -- `Invalid block number: ..`
  invalid_number : ParseIntError → VisitError
  -- `Invalid block number: missing 0x prefix`
  missing_prefix : VisitError
  -- `Unknown key: ..`
  unknown_key : String → VisitError
  -- `Invalid input`
  invalid_input : VisitError
  -- neither a text nor an object
  invalid_type : VisitError
  -- an error of the `MapAccess`
  access_error : ℕ → VisitError

-- The bytes of a text.
abbrev pub codes : String → List ℕ
codes String.[] = []
codes (String.◌∷◌ c s) = code c ∷ codes s

pub number_of_text : List ℕ → Result VisitError ℕ
number_of_text text =
    if starts_with_0x text
    then elim (from_str_radix (from_2 text)) [ ok n ↦ ok n | err e ↦ err (invalid_number e) ]
    else err missing_prefix

-- `visit_str`, also `visit_string`
unfoldable pub visit_str : String → Result VisitError BlockNumber
unfolding number_of_text from_str_radix
visit_str value =
    if str_eq value "latest"
    then ok latest
    else if str_eq value "earliest"
    then ok earliest
    else if str_eq value "pending"
    then ok pending
    else elim (number_of_text (codes value)) [ ok n ↦ ok (num n) | err e ↦ err e ]

-- What follows the loop of `visit_map` when no block number was read.
finish : Option ℕ → Bool → Result VisitError BlockNumber
finish none require_canonical = err invalid_input
finish (some h) require_canonical = ok (hash h require_canonical)

module _ {V : Type 0} (R : Values V) where
  -- The loop of `visit_map`, over the entries that are left, with what the loop leaves unread; a
  -- block number ends it.
  visit_entries : MapAccess V → Option ℕ → Bool → Result VisitError (BlockNumber × MapAccess V)
  visit_entries done block_hash require_canonical = elim (finish block_hash require_canonical) [
    | ok b ↦ ok (b, done)
    | err e ↦ err e
  ]
  visit_entries (fault e) block_hash require_canonical = err (access_error e)
  visit_entries (entry key v rest) block_hash require_canonical =
      if str_eq key "blockNumber"
      then elim (R.as_string v) [
        | err e ↦ err (access_error e)
        | ok value ↦ elim (number_of_text (codes value)) [ ok n ↦ ok (num n, rest) | err e ↦ err e ]
      ]
      else if str_eq key "blockHash"
      then elim (R.as_h256 v) [
        | err e ↦ err (access_error e)
        | ok h ↦ visit_entries rest (some h) require_canonical
      ]
      else if str_eq key "requireCanonical"
      then elim (R.as_bool v) [
        | err e ↦ err (access_error e)
        | ok b ↦ visit_entries rest block_hash b
      ]
      else err (unknown_key key)

  unfoldable pub visit_map : MapAccess V → Result VisitError (BlockNumber × MapAccess V)
  unfolding visit_entries finish number_of_text from_str_radix
  visit_map visitor = visit_entries visitor none false

  -- `Deserialize for BlockNumber`, at a deserializer that closes the objects it hands out.
  unfoldable pub deserialize : Deserializer V → Any V → Result VisitError BlockNumber
  unfolding visit_str visit_map
  deserialize D (a_text value) = visit_str value
  deserialize D (an_object visitor) = elim (visit_map visitor) [
    | err e ↦ err e
    | ok (b, rest) ↦ elim (D.end_map rest) [ none ↦ ok b | some e ↦ err (access_error e) ]
  ]
  deserialize D something_else = err invalid_type
