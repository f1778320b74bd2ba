-- ===== src/Transaction/Signed.antt =====
-- src/transaction.rs: `SignedTransaction`, and the functions of `Transaction` that make one.
pub mod Signing
pub mod Unsigned
use ethereum_prototype.Base.{
  ℕ, ◌%◌, Bool, Option, none, some, List, [], Result, ok, err, ◌>>=◌, Outcome, and_then, expect,
  if◌then◌else◌,
}
use ethereum_prototype.Crates.Rlp.{Rlp, begin_list, ◌◃◌, uint, fixed}
use ethereum_prototype.Crates.Crypto.{Crypto, CryptoError, invalid_signature}
use ethereum_prototype.Transaction
use ethereum_prototype.Transaction.{Transaction, Action, create, call}
use ethereum_prototype.Transaction.Unverified
use ethereum_prototype.Transaction.Unverified.{
  UnverifiedTransaction, compute_hash, recover_public, with_signature,
}

-- UNSIGNED_SENDER and SYSTEM_ADDRESS
abbrev pub unsigned_sender : ℕ
unsigned_sender = 0xffffffffffffffffffffffffffffffffffffffff

abbrev pub system_address : ℕ
system_address = 0xfffffffffffffffffffffffffffffffffffffffe

pub record SignedTransaction : Type 0 where
  pub transaction : UnverifiedTransaction
  pub sender : ℕ
  pub public : Option ℕ

-- `SignedTransaction::is_unsigned`
unfoldable pub is_unsigned : SignedTransaction → Bool
is_unsigned t = Unverified.is_unsigned t.transaction

abbrev pub deconstruct : SignedTransaction → UnverifiedTransaction × ℕ × Option ℕ
deconstruct t = (t.transaction, t.sender, t.public)

-- A `H160` made from a `H256` is its last 20 bytes.
abbrev pub h160_mod : ℕ
h160_mod = 0x10000000000000000000000000000000000000000

module _ (R : Rlp) (C : Crypto) where
  -- `SignedTransaction::new`
  unfoldable pub new_signed : UnverifiedTransaction → Result CryptoError SignedTransaction
  new_signed u = if Unverified.is_unsigned u then err invalid_signature else do
    public ← recover_public R C u
    ok (record { transaction = u; sender = C.public_to_address public; public = some public })

  -- `Transaction::sign`
  -- `UnverifiedTransaction::verify_unordered`
  abbrev pub verify_unordered : UnverifiedTransaction → Result CryptoError SignedTransaction
  verify_unordered u = new_signed u

  unfoldable pub sign : Transaction → ℕ → Option ℕ → Outcome SignedTransaction
  unfolding new_signed
  sign t secret chain_id =
      and_then (expect (C.sign secret (Transaction.hash R C t chain_id)))
        λ sig. expect (new_signed (with_signature R C t sig chain_id))

  unfoldable pub fake_sign : Transaction → ℕ → SignedTransaction
  unfolding compute_hash
  fake_sign t from = record {
    transaction = compute_hash R C (record { unsigned = t; r = 1; s = 1; v = 0; hash = 0 });
    sender = from;
    public = none;
  }

  -- Compiled for tests.
  unfoldable pub invalid_sign : Transaction → UnverifiedTransaction
  unfolding compute_hash
  invalid_sign t = compute_hash R C (record { unsigned = t; r = 1; s = 1; v = 0; hash = 0 })

  -- Compiled for tests.
  unfoldable pub null_sign : Transaction → ℕ → SignedTransaction
  unfolding compute_hash
  null_sign t chain_id = record {
    transaction = compute_hash R C (record { unsigned = t; r = 0; s = 0; v = chain_id; hash = 0 });
    sender = unsigned_sender;
    public = none;
  }

  contract_address_for : ℕ → ℕ → Action → Option ℕ
  unfolding begin_list ◌◃◌
  contract_address_for sender nonce (call address) = none
  contract_address_for sender nonce create =
      some (C.keccak (R.out (begin_list [] 2 ◃ fixed 20 sender ◃ uint nonce)) % h160_mod)

  unfoldable pub contract_address : SignedTransaction → Option ℕ
  unfolding contract_address_for
  contract_address s =
      contract_address_for s.sender s.transaction.unsigned.nonce s.transaction.unsigned.action
