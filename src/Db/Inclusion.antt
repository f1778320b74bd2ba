-- ===== src/Db/Inclusion.antt =====
-- What `receipt` reports after a transaction has been submitted.
use ethereum_prototype.Base.{
  ℕ, ap, ◌-◌, ◌<◌, ◌≡◌, ◌≢◌, refl, sym, ◌∙◌, inl, inr, none, some, [], ◌∷◌, get_last?, get_elem?,
  length, ok, ret, arith, get_last?-push, get_elem?-push, get_last?-get_elem?, get_elem?-lt,
  Option-cases,
}
use ethereum_prototype.Base.Map.{get, get-insert, get-insert_self}
use ethereum_prototype.Crates.Rlp.{Rlp}
use ethereum_prototype.Crates.Crypto.{Crypto}
use ethereum_prototype.Crates.Evm.{Evm}
use ethereum_prototype.Signature.{u64_mod}
use ethereum_prototype.Transaction.Unverified.{receiver}
use ethereum_prototype.Transaction.Signed.{SignedTransaction, contract_address}
use ethereum_prototype.Transaction.Pending.{TransactionInfo}
use ethereum_prototype.Ethcore.{Block, hash, compute_hash}
use ethereum_prototype.RpcTypes.{RpcReceipt, default_receipt}
use ethereum_prototype.Backend.{Accounts}
use ethereum_prototype.Db.{HashMapEthDb, receipt, submit_tx, store_block, next_header}
use ethereum_prototype.Db.Valid.{IsValid}
use ethereum_prototype.Db.Valid.Submit.{run_after, run_keeps, db_after, block_after}
use ethereum_prototype.Db.Submission.{submit_tx_ok}
use ethereum_prototype.Db.Receipts.{receipt_of, receipt_of_none, indexed_block, receipt_in}

module _ (R : Rlp) (C : Crypto) (E : Evm) (db : HashMapEthDb) (v : IsValid R C db)
    (tx : SignedTransaction) (timestamp : ℕ) (small : length db.blocks < u64_mod) where
  module _ (best : Block) (accounts : Accounts) (p : get_last? db.blocks ≡ some best) where
    abbrev block : Block
    block = block_after R C tx timestamp best

    abbrev after : HashMapEthDb
    after = db_after R C tx timestamp E db best accounts

    block-number : block.header.number ≡ length db.blocks
    unfolding compute_hash next_header
    block-number =
        let i = length db.blocks - 1 in
        omega (
          arith,
          v.chain.number i best (get_last?-get_elem? db.blocks p i (omega (arith, v.chain.pos))),
          v.chain.pos,
        )

    last-after : get_last? after.blocks ≡ some block
    unfolding store_block
    last-after = get_last?-push db.blocks block

    block-state_root : block.header.state_root ≡ block.header.number
    unfolding compute_hash next_header
    block-state_root = refl

    abbrev stored_info : TransactionInfo
    stored_info = record (run_after R C tx timestamp E db best accounts).0.info {
      result = (run_after R C tx timestamp E db best accounts).1.1;
    }

    receipt-stored :
        receipt R C after tx.transaction.hash ≡ ret (some (receipt_in R C tx stored_info block))
    unfolding store_block
    receipt-stored =
        let keeps = run_keeps R C tx timestamp E db best accounts in
        receipt_of R C after tx.transaction.hash block.header.number stored_info tx block
          (get-insert_self db.infos tx.transaction.hash stored_info) keeps.0 refl
          (rw keeps.1 (get-insert_self db.hash_index (hash R C block.header) block.header.number))
          refl (ground (arith, get_elem?-push db.blocks block block.header.number, block-number))

    abbrev included : RpcReceipt
    included = record default_receipt {
      transaction_hash = some tx.transaction.hash;
      transaction_index = some 0;
      block_hash = some (hash R C block.header);
      from = some tx.sender;
      to = receiver tx.transaction;
      block_number = some (length db.blocks);
      contract_address = contract_address R C tx;
      state_root = some (length db.blocks);
      status_code = some 1;
    }

    receipt_in-stored : receipt_in R C tx stored_info block ≡ included
    receipt_in-stored =
        let keeps = run_keeps R C tx timestamp E db best accounts in
        cc (keeps.1, keeps.2, block-number, block-state_root)

    module _ (j : ℕ) (ne : j ≢ tx.transaction.hash)
        (new : get db.hash_index (hash R C block.header) ≡ none) where
      infos-after : get after.infos j ≡ get db.infos j
      unfolding store_block
      infos-after = ground (arith, get-insert db.infos tx.transaction.hash j stored_info)

      index-after : (h n : ℕ) → get db.hash_index h ≡ some n → get after.hash_index h ≡ some n
      unfolding store_block
      index-after h n e =
          ground (arith, get-insert db.hash_index (hash R C block.header) h block.header.number)

      blocks-after :
          (n : ℕ) (b : Block) → get_elem? db.blocks n ≡ some b → get_elem? after.blocks n ≡ some b
      unfolding store_block
      blocks-after n b e =
          ground (arith, get_elem?-push db.blocks block n, get_elem?-lt db.blocks n e)

      receipt-after_ne : receipt R C after j ≡ receipt R C db j
      receipt-after_ne = elim (Option-cases (get db.infos j)) [
        | inl no_info ↦
            receipt_of_none R C after j (infos-after ∙ no_info)
            ∙ sym (receipt_of_none R C db j no_info)
        | inr (info, found) ↦
            let (tx', n, held, at_hash, indexed) = v.known j info found in
            let (b, num, at, same) =
              indexed_block R C db v info.block_hash n (omega arith) indexed in
            receipt_of R C after j n info tx' b (infos-after ∙ found) held at_hash
              (index-after info.block_hash n indexed) num (blocks-after n b at)
            ∙ sym (receipt_of R C db j n info tx' b found held at_hash indexed num at)
      ]

  -- After a success on a valid database of fewer than 2^64 blocks the last block holds the
  -- transaction alone, and its receipt names that block: its hash, its number (the number of blocks
  -- that there were before) and its state root (which is the same number), with the sender, the
  -- receiver and the address of a created contract.
  pub receipt-submit_tx :
      {db' : HashMapEthDb}
      → submit_tx R C E db tx (some timestamp) ≡ ret (db', ok tt)
      → (block : Block) × (get_last? db'.blocks ≡ some block)
        × (block.transactions ≡ tx ∷ [])
        × (receipt R C db' tx.transaction.hash
            ≡ ret (
                some (record default_receipt {
                  transaction_hash = some tx.transaction.hash;
                  transaction_index = some 0;
                  block_hash = some (hash R C block.header);
                  from = some tx.sender;
                  to = receiver tx.transaction;
                  block_number = some (length db.blocks);
                  contract_address = contract_address R C tx;
                  state_root = some (length db.blocks);
                  status_code = some 1;
                })))
  receipt-submit_tx h =
      let (best, accounts, p, q, e) = submit_tx_ok R C E db v tx timestamp h in
      (
        block best accounts p,
        rw (← e) (last-after best accounts p),
        refl,
        rw (← e) (
            rw (receipt-stored best accounts p)
              (ap (λ r. ret (some r)) (receipt_in-stored best accounts p))),
      )

  -- After such a success the receipt of another transaction is what it was, unless the new block
  -- has the hash of a block that the index knows.
  pub receipt-submit_tx_ne :
      {db' : HashMapEthDb} (j : ℕ)
      → submit_tx R C E db tx (some timestamp) ≡ ret (db', ok tt)
      → ((b : Block) → get_last? db'.blocks ≡ some b → get db.hash_index (hash R C b.header) ≡ none)
      → j ≢ tx.transaction.hash
      → receipt R C db' j ≡ receipt R C db j
  receipt-submit_tx_ne j h new ne =
      let (best, accounts, p, q, e) = submit_tx_ok R C E db v tx timestamp h in
      rw (← e) (
        receipt-after_ne best accounts p j ne
          (new (block best accounts p) (rw (← e) (last-after best accounts p))))
