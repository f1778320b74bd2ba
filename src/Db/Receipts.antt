-- ===== src/Db/Receipts.antt =====
-- src/db.rs, `receipt`: its result on every path.
use mathlib.Core.Path.{subst}
use ethereum_prototype.Base.{
  ℕ, ◌≤◌, sym, ◌∙◌, get_elem?-lt, ◌≡◌, ◌⊎◌, inl, inr, none, some, get_elem?, length, ret, arith,
  Option-cases,
}
use ethereum_prototype.Base.Map.{get}
use ethereum_prototype.Crates.Rlp.{Rlp}
use ethereum_prototype.Crates.Crypto.{Crypto}
use ethereum_prototype.Transaction.Unverified.{receiver}
use ethereum_prototype.Transaction.Signed.{SignedTransaction, contract_address}
use ethereum_prototype.Transaction.Pending.{TransactionInfo}
use ethereum_prototype.Ethcore.{Block, hash}
use ethereum_prototype.Signature.{u64_mod}
use ethereum_prototype.RpcTypes.{RpcReceipt, default_receipt}
use ethereum_prototype.Db.{HashMapEthDb, receipt}
use ethereum_prototype.Db.Chain.{number_of_hash_at}
use ethereum_prototype.Db.Valid.{IsValid}

module _ (R : Rlp) (C : Crypto) where
  -- The receipt of a transaction in the block `b`.
  abbrev pub receipt_in : SignedTransaction → TransactionInfo → Block → RpcReceipt
  receipt_in tx info b = record default_receipt {
    transaction_hash = some tx.transaction.hash;
    transaction_index = some info.index;
    block_hash = some info.block_hash;
    from = some tx.sender;
    to = receiver tx.transaction;
    block_number = some b.header.number;
    contract_address = contract_address R C tx;
    state_root = some b.header.state_root;
    status_code = some 1;
  }

  pub receipt_of :
      (db : HashMapEthDb) (h n : ℕ) (info : TransactionInfo) (tx : SignedTransaction) (b : Block)
      → get db.infos h ≡ some info
      → info.transaction ≡ some tx
      → tx.transaction.hash ≡ h
      → get db.hash_index info.block_hash ≡ some n
      → b.header.number ≡ n
      → get_elem? db.blocks n ≡ some b
      → receipt R C db h ≡ ret (some (receipt_in tx info b))
  unfolding receipt
  receipt_of db h n info tx b found held at_hash indexed num at = ground arith

  -- The block that the index gives for a hash stands at its own number and has that hash.
  pub indexed_block :
      (db : HashMapEthDb) (v : IsValid R C db) (h n : ℕ)
      → length db.blocks ≤ u64_mod
      → get db.hash_index h ≡ some n
      → (b : Block) × (b.header.number ≡ n)
        × (get_elem? db.blocks n ≡ some b)
        × (hash R C b.header ≡ h)
  indexed_block db v h n small e =
      let (i, b, at, num, found) = number_of_hash_at R C db.blocks h n (sym (v.indexed h) ∙ e) in
      let same : i ≡ n = omega (arith, v.chain.number i b at, get_elem?-lt db.blocks i at) in
      (b, num, subst (λ j. get_elem? db.blocks j ≡ some b) same at, found)

  pub receipt_of_none :
      (db : HashMapEthDb) (h : ℕ) → get db.infos h ≡ none → receipt R C db h ≡ ret none
  unfolding receipt
  receipt_of_none db h e = rw (e, receipt)

  -- On a valid database of at most 2^64 blocks the receipt of a known transaction is that of the
  -- transaction stored under the hash, in the block with the block hash that is stored with it. Of
  -- an unknown transaction there is none. In no case does `receipt` panic.
  pub receipt_lem :
      (db : HashMapEthDb)
      → IsValid R C db
      → length db.blocks ≤ u64_mod
      → (h : ℕ)
      → ((get db.infos h ≡ none) × (receipt R C db h ≡ ret none))
        ⊎ ((info : TransactionInfo) × (tx : SignedTransaction) × (b : Block) × (get db.infos h
              ≡ some info)
            × (info.transaction ≡ some tx)
            × (tx.transaction.hash ≡ h)
            × (get_elem? db.blocks b.header.number ≡ some b)
            × (hash R C b.header ≡ info.block_hash)
            × (receipt R C db h ≡ ret (some (receipt_in tx info b))))
  receipt_lem db v small h = elim (Option-cases (get db.infos h)) [
    | inl none_found ↦ inl (none_found, receipt_of_none db h none_found)
    | inr (info, found) ↦
        let (tx, n, held, at_hash, indexed) = v.known h info found in
        let (b, num, at, block_hash) = indexed_block db v info.block_hash n small indexed in
        inr (
          info,
          tx,
          b,
          found,
          held,
          at_hash,
          rw num at,
          block_hash,
          receipt_of db h n info tx b found held at_hash indexed num at,
        )
  ]
