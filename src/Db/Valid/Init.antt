-- ===== src/Db/Valid/Init.antt =====
-- src/db.rs, `new` and `create_genesis`, and the invariant.
use ethereum_prototype.Base.{
  ℕ, zero, suc, ◌%◌, ◌≡◌, refl, some, [], ◌∷◌, get_elem?, ret, arith, inl,
}
use ethereum_prototype.Base.Map.{get-insert, get-nil}
use ethereum_prototype.Crates.Rlp.{Rlp}
use ethereum_prototype.Crates.Crypto.{Crypto}
use ethereum_prototype.Transaction.Pending.{TransactionInfo}
use ethereum_prototype.Signature.{u64_mod}
use ethereum_prototype.Ethcore.{Block, MemAccount, default_header, compute_hash}
use ethereum_prototype.Ethcore.Hashes.{IsFresh, compute_hash-IsFresh}
use ethereum_prototype.Backend.{Accounts, storage_entry}
use ethereum_prototype.Backend.Tidy.{IsTidy}
use ethereum_prototype.Db.{HashMapEthDb, new}
use ethereum_prototype.Db.Chain.{IsChain}
use ethereum_prototype.Db.Valid.{IsValid}

module _ (R : Rlp) (C : Crypto) (timestamp : ℕ) where
  abbrev pub genesis : Block
  genesis = record {
    header = (compute_hash R C (record (default_header C) { timestamp = timestamp })).0;
    transactions = [];
    uncles = [];
  }

  genesis_digest : ℕ
  genesis_digest = (compute_hash R C (record (default_header C) { timestamp = timestamp })).1

  genesis-number :
      (i : ℕ) (b : Block) → get_elem? (genesis ∷ []) i ≡ some b → b.header.number ≡ i % u64_mod
  unfolding compute_hash
  genesis-number zero b h = ground arith
  genesis-number (suc i) b h = cc

  genesis-IsFresh : (i : ℕ) (b : Block) → get_elem? (genesis ∷ []) i ≡ some b → IsFresh R C b.header
  genesis-IsFresh zero b h = ground (
    arith,
    compute_hash-IsFresh R C (record (default_header C) { timestamp = timestamp }) (inl refl),
  )
  genesis-IsFresh (suc i) b h = cc

  genesis-IsChain : IsChain R C (genesis ∷ [])
  genesis-IsChain = record {
    pos = omega arith;
    number = genesis-number;
    fresh = genesis-IsFresh;
    linked = λ i a b h k. cc;
  }

  genesis-IsTidy : (i : ℕ) (a : Accounts) → get_elem? {A = Accounts} ([] ∷ []) i ≡ some a → IsTidy a
  unfolding storage_entry
  genesis-IsTidy zero a h address slot = ground (arith, get-nil {V = MemAccount} address)
  genesis-IsTidy (suc i) a h address slot = cc

  -- With a clock after 1970 a new database is created, satisfies the invariant and holds the
  -- genesis block alone, with no accounts.
  pub new-IsValid :
      (db : HashMapEthDb) × (new R C (some timestamp) ≡ ret db)
      × IsValid R C db
      × (db.blocks ≡ genesis ∷ [])
      × (db.accounts ≡ [] ∷ [])
  unfolding new genesis_digest
  new-IsValid = (
    _,
    refl,
    record {
      chain = genesis-IsChain;
      states = refl;
      indexed = λ h. rw (get-insert, get-nil);
      known = λ h info e. cc (get-nil {V = TransactionInfo} h);
      tidy = genesis-IsTidy;
    },
    refl,
    refl,
  )
