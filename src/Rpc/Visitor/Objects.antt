-- ===== src/Rpc/Visitor/Objects.antt =====
-- What a JSON object names: block numbers as objects with the keys of EIP-1898, in any order and
-- with any repetition.
use mathlib.Core.Option.{get_or}
use ethereum_prototype.Base.{
  ℕ, ◌≡◌, String, Bool, false, Option, none, some, List, [], ◌∷◌, Result, ok, err, arith,
}
use ethereum_prototype.Crates.Serde.{MapAccess, done, entry, Values, an_object, Deserializer}
use ethereum_prototype.Rpc.BlockNumber.{BlockNumber, hash, num}
use ethereum_prototype.Rpc.Visitor.{
  VisitError, invalid_input, access_error, codes, number_of_text, finish, visit_entries, visit_map,
  deserialize,
}

-- An entry with one of the three known keys.
pub data Item : Type 0 where
  block_number : String → Item
  block_hash : ℕ → Item
  require_canonical : Bool → Item

-- The text of the first block number, the last hash, and the last flag.
abbrev pub first_number : List Item → Option String
first_number [] = none
first_number (block_number text ∷ items) = some text
first_number (block_hash h ∷ items) = first_number items
first_number (require_canonical b ∷ items) = first_number items

abbrev pub last_hash : List Item → Option ℕ
last_hash [] = none
last_hash (block_hash h ∷ items) = some (get_or (last_hash items) h)
last_hash (block_number text ∷ items) = last_hash items
last_hash (require_canonical b ∷ items) = last_hash items

abbrev pub last_flag : List Item → Option Bool
last_flag [] = none
last_flag (require_canonical b ∷ items) = some (get_or (last_flag items) b)
last_flag (block_number text ∷ items) = last_flag items
last_flag (block_hash h ∷ items) = last_flag items

-- The items after the first block number, which ends the reading.
abbrev pub unread : List Item → List Item
unread [] = []
unread (block_number text ∷ items) = items
unread (block_hash h ∷ items) = unread items
unread (require_canonical b ∷ items) = unread items

-- The block that an object names.
abbrev pub named : List Item → Result VisitError BlockNumber
named items = elim (first_number items) [
  | some text ↦ elim (number_of_text (codes text)) [ ok n ↦ ok (num n) | err e ↦ err e ]
  | none ↦ elim (last_hash items) [
    | some h ↦ ok (hash h (get_or (last_flag items) false))
    | none ↦ err invalid_input
  ]
]

-- Values that are read back as what they were written from.
pub record Writes {V : Type 0} (R : Values V) : Type 0 where
  pub of_string : String → V
  pub of_h256 : ℕ → V
  pub of_bool : Bool → V
  pub as-of_string : (s : String) → R.as_string (of_string s) ≡ ok s
  pub as-of_h256 : (h : ℕ) → R.as_h256 (of_h256 h) ≡ ok h
  pub as-of_bool : (b : Bool) → R.as_bool (of_bool b) ≡ ok b

module _ {V : Type 0} (R : Values V) (W : Writes R) where
  -- The entries that a parser hands out for an object.
  abbrev pub access : List Item → MapAccess V
  access [] = done
  access (block_number text ∷ items) = entry "blockNumber" (W.of_string text) (access items)
  access (block_hash h ∷ items) = entry "blockHash" (W.of_h256 h) (access items)
  access (require_canonical b ∷ items) = entry "requireCanonical" (W.of_bool b) (access items)

  -- The block that was read, with what is left of the object.
  abbrev with_unread :
      List Item → Result VisitError BlockNumber → Result VisitError (BlockNumber × MapAccess V)
  with_unread items (ok b) = ok (b, access (unread items))
  with_unread items (err e) = err e

  visit_entries-access :
      (items : List Item) (h : Option ℕ) (c : Bool)
      → visit_entries R (access items) h c
        ≡ with_unread items (elim (first_number items) [
          | some text ↦ elim (number_of_text (codes text)) [ ok n ↦ ok (num n) | err e ↦ err e ]
          | none ↦
              finish
                (elim (last_hash items) [ some k ↦ some k | none ↦ h ])
                (get_or (last_flag items) c)
        ])
  unfolding visit_entries
  visit_entries-access [] h c = ground arith
  visit_entries-access (block_number text ∷ items) h c = rw (W.as-of_string text) (ground arith)
  visit_entries-access (block_hash k ∷ items) h c =
      rw (W.as-of_h256 k) (ground (arith, visit_entries-access items (some k) c))
  visit_entries-access (require_canonical b ∷ items) h c =
      rw (W.as-of_bool b) (ground (arith, visit_entries-access items h b))

  visit_map_lem : (items : List Item) → visit_map R (access items) ≡ with_unread items (named items)
  unfolding visit_map finish
  visit_map_lem items = ground (arith, visit_entries-access items none false)

  -- Where values are read back as they were written, an object whose keys are known names a block
  -- thus, whatever the order of its entries and whichever are repeated: by the first block number,
  -- if there is one, and its text decides; otherwise by the last hash, with the last flag or false;
  -- an object with neither is refused. An object that names a block is refused even so if the
  -- deserializer refuses the entries behind the first block number, which are left unread.
  pub deserialize-access :
      (D : Deserializer V) (items : List Item)
      → deserialize R D (an_object (access items)) ≡ (elim (named items) [
        | err e ↦ err e
        | ok b ↦ elim (D.end_map (access (unread items))) [
          | none ↦ ok b
          | some e ↦ err (access_error e)
        ]
      ])
  unfolding deserialize
  deserialize-access D items = ground (arith, visit_map_lem items)
