-- ===== src/Transaction.antt =====
-- src/transaction.rs: `Action`, `Transaction` and their encoding.
pub mod Unverified
pub mod Signed
pub mod Pending
use ethereum_prototype.Base.{
  ℕ, Bool, Option, none, some, List, [], Result, ok, err, ◌>>=◌, if◌then◌else◌,
}
use ethereum_prototype.Crates.Rlp.{
  Rlp, RlpStream, begin_list, append_internal, ◌◃◌, uint, bytes, fixed, DecoderError,
  rlp_expected_to_be_data,
}
use ethereum_prototype.Crates.Crypto.{Crypto}

pub data Action : Type 0 where
  create : Action
  call : ℕ → Action

abbrev pub default_action : Action
default_action = create

unfoldable pub decode_action : Rlp → List ℕ → Result DecoderError Action
decode_action R rlp =
    if R.is_empty rlp
    then (if R.is_data rlp then ok create else err rlp_expected_to_be_data)
    else do address ← R.as_fixed 20 rlp; ok (call address)

unfoldable pub append_action : RlpStream → Action → RlpStream
unfolding append_internal
append_action s create = append_internal s (bytes [])
append_action s (call address) = append_internal s (fixed 20 address)

pub record Transaction : Type 0 where
  pub nonce : ℕ
  pub gas_price : ℕ
  pub gas : ℕ
  pub action : Action
  pub value : ℕ
  pub tx_data : List ℕ

abbrev is_none : Option ℕ → Bool
is_none none = Bool.true
is_none (some n) = Bool.false

-- The six fields that every encoding of a transaction begins with.
unfoldable pub append_fields : RlpStream → Transaction → RlpStream
unfolding append_action ◌◃◌
append_fields s t =
    append_action (s ◃ uint t.nonce ◃ uint t.gas_price ◃ uint t.gas) t.action
    ◃ uint t.value
    ◃ bytes t.tx_data

unfoldable pub rlp_append_unsigned_transaction : Transaction → RlpStream → Option ℕ → RlpStream
unfolding append_fields begin_list ◌◃◌
rlp_append_unsigned_transaction t s chain_id =
    let fields = append_fields (begin_list s (if is_none chain_id then 6 else 9)) t in
    elim chain_id [ none ↦ fields | some n ↦ fields ◃ uint n ◃ uint 0 ◃ uint 0 ]

-- The message hash of the transaction.
unfoldable pub hash : Rlp → Crypto → Transaction → Option ℕ → ℕ
unfolding rlp_append_unsigned_transaction
hash R C t chain_id = C.keccak (R.out (rlp_append_unsigned_transaction t [] chain_id))
