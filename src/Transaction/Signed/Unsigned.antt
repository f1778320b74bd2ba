-- ===== src/Transaction/Signed/Unsigned.antt =====
-- Transactions that carry no signature, or one that nobody made.
use ethereum_prototype.Base.{ℕ, ◌≡◌, refl, true, false, Bool, Option, none, some, err}
use ethereum_prototype.Crates.Rlp.{Rlp}
use ethereum_prototype.Crates.Crypto.{Crypto, invalid_signature}
use ethereum_prototype.Transaction.{Transaction}
use ethereum_prototype.Transaction.Unverified
use ethereum_prototype.Transaction.Unverified.{
  UnverifiedTransaction, chain_id, verify_basic, standard_v, compute_hash,
}
use ethereum_prototype.Transaction.Signed.{
  unsigned_sender, new_signed, null_sign, fake_sign, invalid_sign, is_unsigned,
}

module _ (R : Rlp) (C : Crypto) where
  -- What happens to a transaction whose `r` and `s` are zero.
  pub record IsRejected (u : UnverifiedTransaction) : Type 0 where
    pub new_signed : new_signed R C u ≡ err invalid_signature
    pub verify_basic :
        (low : Bool) (n : Option ℕ) → verify_basic C u low n ≡ err "verify_basic: unsigned"

  unsigned-IsRejected : (u : UnverifiedTransaction) → Unverified.is_unsigned u ≡ true → IsRejected u
  unfolding new_signed verify_basic
  unsigned-IsRejected u h = record { new_signed = rw h refl; verify_basic = λ low n. rw h refl }

  -- A transaction with an empty signature is unsigned and for the chain that was asked for,
  -- whatever its content; it is sent by UNSIGNED_SENDER, and neither `SignedTransaction::new` nor
  -- `verify_basic` lets it pass.
  pub null_sign_lem :
      (t : Transaction) (n : ℕ)
      → (is_unsigned (null_sign R C t n) ≡ true)
        × ((null_sign R C t n).sender ≡ unsigned_sender)
        × (chain_id (null_sign R C t n).transaction ≡ some n)
        × IsRejected (null_sign R C t n).transaction
  unfolding null_sign is_unsigned chain_id Unverified.is_unsigned compute_hash
  null_sign_lem t n = (refl, refl, refl, unsigned-IsRejected _ refl)

  -- A transaction with a made-up sender has that sender, is signed and for no chain; its `v` is no
  -- recovery bit, as is that of a transaction with an invalid signature, which is the same one.
  pub fake_sign_lem :
      (t : Transaction) (from : ℕ)
      → ((fake_sign R C t from).sender ≡ from)
        × (is_unsigned (fake_sign R C t from) ≡ false)
        × (chain_id (fake_sign R C t from).transaction ≡ none)
        × (standard_v (fake_sign R C t from).transaction ≡ 4)
        × (invalid_sign R C t ≡ (fake_sign R C t from).transaction)
  unfolding fake_sign invalid_sign is_unsigned chain_id standard_v Unverified.is_unsigned
      compute_hash
  fake_sign_lem t from = (refl, refl, refl, refl, refl)
