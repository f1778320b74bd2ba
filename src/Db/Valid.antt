-- ===== src/Db/Valid.antt =====
-- src/db.rs: the invariant of `HashMapEthDB`, and in the children the operations on it.
pub mod Init
pub mod Submit
pub mod Estimate
use ethereum_prototype.Base.{ℕ, ◌≡◌, Option, none, some, List, length, get_elem?}
use ethereum_prototype.Base.Map.{get}
use ethereum_prototype.Crates.Rlp.{Rlp}
use ethereum_prototype.Crates.Crypto.{Crypto}
use ethereum_prototype.Transaction.Signed.{SignedTransaction}
use ethereum_prototype.Transaction.Pending.{TransactionInfo}
use ethereum_prototype.Backend.{Accounts}
use ethereum_prototype.Backend.Tidy.{IsTidy}
use ethereum_prototype.Db.{HashMapEthDb}
use ethereum_prototype.Db.Chain.{IsChain, number_of_hash}

module _ (R : Rlp) (C : Crypto) (db : HashMapEthDb) where
  -- The information of a transaction stands under the transaction's hash and names a known block.
  abbrev pub IsKnown : ℕ → TransactionInfo → Type 0
  IsKnown hash info =
      (tx : SignedTransaction) × (n : ℕ) × (info.transaction ≡ some tx)
      × (tx.transaction.hash ≡ hash)
      × (get db.hash_index info.block_hash ≡ some n)

  pub record IsValid : Type 0 where
    -- the blocks form a chain, with one state of the accounts after each block
    pub chain : IsChain R C db.blocks
    pub states : length db.accounts ≡ length db.blocks
    -- the index gives the number of the last block with a hash
    pub indexed : (h : ℕ) → get db.hash_index h ≡ number_of_hash R C db.blocks h
    pub known : (h : ℕ) (info : TransactionInfo) → get db.infos h ≡ some info → IsKnown h info
    pub tidy : (i : ℕ) (a : Accounts) → get_elem? db.accounts i ≡ some a → IsTidy a
