-- ===== src/Db/Valid/Submit.antt =====
-- src/db.rs, `submit_tx`, on a database that satisfies the invariant.
use ethereum_prototype.Base.{
  ℕ, ◌≡◌, refl, Option, some, List, [], ◌∷◌, get_last?, get_elem?, length, length-push,
  get_elem?-push_inv, inl, inr, get_last?-index, ap, ok, err, ret, arith, if◌then◌else◌,
}
use ethereum_prototype.Base.Map.{get, get-insert, get-insert_inv, get-insert_self, get-insert_keeps}
use ethereum_prototype.Crates.Rlp.{Rlp}
use ethereum_prototype.Crates.Crypto.{Crypto}
use ethereum_prototype.Crates.Evm.{Evm, ExitReason}
use ethereum_prototype.Transaction.Unverified.{receiver}
use ethereum_prototype.Transaction.Signed.{SignedTransaction}
use ethereum_prototype.Transaction.Pending.{TransactionInfo}
use ethereum_prototype.Ethcore.{Block, compute_hash, hash}
use ethereum_prototype.Ethcore.Hashes.{compute_hash-IsFresh}
use ethereum_prototype.Backend.{Accounts, EthDbBackend, execute}
use ethereum_prototype.Backend.Tidy.{IsTidy}
use ethereum_prototype.Backend.Runs.{succeeded, execute-IsTidy, execute_keeps}
use ethereum_prototype.Db.{HashMapEthDb, next_header, start_info, store_block, submit_tx}
use ethereum_prototype.Db.Chain.{Follows, push-IsChain, number_of_hash, number_of_hash-push}
use ethereum_prototype.Db.Valid.{IsValid, IsKnown}

module _ (R : Rlp) (C : Crypto) (tx : SignedTransaction) (timestamp : ℕ) where
  -- The block that `submit_tx` makes for the transaction on top of `best`.
  abbrev pub block_after : Block → Block
  block_after best = record {
    header = (compute_hash R C (next_header R C best (tx ∷ []) timestamp)).0;
    transactions = tx ∷ [];
    uncles = [];
  }

  pub block_after-Follows : (best : Block) → Follows R C best (block_after best)
  unfolding next_header compute_hash
  block_after-Follows best =
      let fresh = compute_hash-IsFresh R C (next_header R C best (tx ∷ []) timestamp) (inl refl) in
      record { number = refl; fresh = fresh.0; parent = refl }

  -- The backend that `submit_tx` runs the transaction on.
  abbrev pub start_backend : HashMapEthDb → Block → Accounts → EthDbBackend
  start_backend db best accounts = record {
    accounts = accounts;
    sender = tx.sender;
    gas_price = tx.transaction.unsigned.gas_price;
    block = block_after best;
    info = start_info R C best (block_after best) tx;
    config = db.config;
  }

  module _ (E : Evm) (db : HashMapEthDb) (best : Block) (accounts : Accounts) where
    -- The run that `submit_tx` makes, over the accounts after the best block.
    abbrev pub run_after : EthDbBackend × (ExitReason × Option (List ℕ) × ℕ)
    run_after =
        execute E (start_backend db best accounts) tx.sender tx.transaction.unsigned.value
          (receiver tx.transaction) tx.transaction.unsigned.tx_data

    -- A run keeps what `submit_tx` wrote into the information before it.
    pub run_keeps :
        (run_after.0.info.transaction ≡ some tx)
        × (run_after.0.info.block_hash ≡ hash R C (block_after best).header)
        × (run_after.0.info.index ≡ 0)
    unfolding start_info
    run_keeps = ground (
      arith,
      execute_keeps E (start_backend db best accounts) tx.sender tx.transaction.unsigned.value
          (receiver tx.transaction) tx.transaction.unsigned.tx_data,
    )

    abbrev pub db_after : HashMapEthDb
    db_after = store_block R C db tx (block_after best) run_after.0 run_after.1.1

    -- On both branches: a success stores one block, a failure changes nothing.
    pub submit_tx_lem :
        get_last? db.blocks ≡ some best
        → get_last? db.accounts ≡ some accounts
        → submit_tx R C E db tx (some timestamp) ≡ (
            if succeeded run_after.1.0
            then ret (db_after, ok tt)
            else ret (db, err "invalid transaction received"))
    unfolding submit_tx
    submit_tx_lem p q = rw (p, q, submit_tx) (ground arith)

  module _ (E : Evm) (db : HashMapEthDb) (v : IsValid R C db) (best : Block) (accounts : Accounts)
      (p : get_last? db.blocks ≡ some best) (q : get_last? db.accounts ≡ some accounts) where
    abbrev after : HashMapEthDb
    after = db_after E db best accounts

    after-states : length after.accounts ≡ length after.blocks
    unfolding store_block
    after-states = ground (
      arith,
      v.states,
      length-push db.blocks (block_after best),
      length-push db.accounts (run_after E db best accounts).0.accounts,
    )

    after-indexed : (h : ℕ) → get after.hash_index h ≡ number_of_hash R C after.blocks h
    unfolding store_block
    after-indexed h = rw (get-insert, number_of_hash-push, v.indexed h)

    after-IsKnown :
        (h : ℕ) (info : TransactionInfo) → get after.infos h ≡ some info → IsKnown R C after h info
    unfolding store_block
    after-IsKnown h info e = elim (get-insert_inv db.infos tx.transaction.hash h _ e) [
      | inl (at_hash, same) ↦ (
        tx,
        (block_after best).header.number,
        cc ((run_keeps E db best accounts).0, ap (λ (i : TransactionInfo). i.transaction) same),
        at_hash,
        cc (
          get-insert_self db.hash_index (hash R C (block_after best).header)
              (block_after best).header.number,
          (run_keeps E db best accounts).1,
          ap (λ (i : TransactionInfo). i.block_hash) same,
        ),
      )
      | inr old ↦
          let (tx', n, held, at_hash, indexed) = v.known h info old in
          let (n', indexed') =
            get-insert_keeps db.hash_index (hash R C (block_after best).header) info.block_hash
              (block_after best).header.number indexed in
          (tx', n', held, at_hash, indexed')
    ]

    after-IsTidy : (i : ℕ) (a : Accounts) → get_elem? after.accounts i ≡ some a → IsTidy a
    unfolding store_block
    after-IsTidy i a e =
        elim (get_elem?-push_inv db.accounts (run_after E db best accounts).0.accounts i e) [
          | inl (last, same) ↦ rw (← same) (
              execute-IsTidy E (start_backend db best accounts) tx.sender
                tx.transaction.unsigned.value (receiver tx.transaction)
                tx.transaction.unsigned.tx_data
                (let (j, at) = get_last?-index db.accounts q in v.tidy j accounts at))
          | inr old ↦ v.tidy i a old
        ]

    pub store_block-IsValid : IsValid R C after
    unfolding store_block
    store_block-IsValid = record {
      chain =
          push-IsChain R C db.blocks best (block_after best) v.chain p (block_after-Follows best);
      states = after-states;
      indexed = after-indexed;
      known = after-IsKnown;
      tidy = after-IsTidy;
    }
