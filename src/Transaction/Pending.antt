-- ===== src/Transaction/Pending.antt =====
-- src/transaction.rs: `TransactionInfo`, `Condition`, `LocalizedTransaction`, `PendingTransaction`.
use ethereum_prototype.Base.{
  ℕ, Option, none, some, List, [], Outcome, and_then, expect, ret, if◌then◌else◌,
}
use ethereum_prototype.Crates.Rlp.{Rlp}
use ethereum_prototype.Crates.Crypto.{Crypto}
use ethereum_prototype.Crates.Evm.{Log}
use ethereum_prototype.Transaction.Unverified.{UnverifiedTransaction, is_unsigned, recover_public}
use ethereum_prototype.Transaction.Signed.{SignedTransaction, unsigned_sender}

pub record TransactionInfo : Type 0 where
  pub transaction : Option SignedTransaction
  pub post_state : ℕ
  pub gas : ℕ
  pub bloom : ℕ
  pub result : Option (List ℕ)
  pub logs : List Log
  pub block_hash : ℕ
  pub parent_hash : ℕ
  pub index : ℕ

-- `TransactionInfo::default()`
abbrev pub default_info : TransactionInfo
default_info = record {
  transaction = none;
  post_state = 0;
  gas = 0;
  bloom = 0;
  result = none;
  logs = [];
  block_hash = 0;
  parent_hash = 0;
  index = 0;
}

abbrev pub set_result : TransactionInfo → List ℕ → TransactionInfo
set_result i res = record i { result = some res }

pub data Condition : Type 0 where
  number : ℕ → Condition
  timestamp : ℕ → Condition

pub record LocalizedTransaction : Type 0 where
  pub signed : UnverifiedTransaction
  pub block_number : ℕ
  pub block_hash : ℕ
  pub transaction_index : ℕ
  pub cached_sender : Option ℕ

pub record PendingTransaction : Type 0 where
  pub transaction : SignedTransaction
  pub condition : Option Condition

abbrev pub new_pending : SignedTransaction → Option Condition → PendingTransaction
new_pending signed condition = record { transaction = signed; condition = condition }

-- `From<SignedTransaction> for PendingTransaction`
abbrev pub from_signed : SignedTransaction → PendingTransaction
from_signed t = record { transaction = t; condition = none }

module _ (R : Rlp) (C : Crypto) where
  -- The sender that is not cached, with the transaction that the call leaves behind.
  find_sender : LocalizedTransaction → Outcome (LocalizedTransaction × ℕ)
  find_sender l =
      if is_unsigned l.signed
      then ret (l, unsigned_sender)
      else and_then (expect (recover_public R C l.signed)) λ public.
        let sender = C.public_to_address public in
        ret (record l { cached_sender = some sender }, sender)

  -- `LocalizedTransaction::sender`, which caches what it recovers.
  unfoldable pub sender : LocalizedTransaction → Outcome (LocalizedTransaction × ℕ)
  unfolding find_sender
  sender l = elim l.cached_sender [ some cached ↦ ret (l, cached) | none ↦ find_sender l ]
