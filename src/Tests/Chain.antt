-- ===== src/Tests/Chain.antt =====
-- The database: the genesis block, a submitted transfer, its receipt, and an estimate.
use ethereum_prototype.Base.{
  ℕ, ◌≤◌, ◌≡◌, ◌≢◌, refl, sym, ◌∙◌, ◌⊎◌, String, none, some, [], ◌∷◌, get_last?, get_elem?, length,
  Result, ret, arith, ◌==◌, if◌then◌else◌,
}
use mathlib.Core.Path.{subst}
use ethereum_prototype.Base.Map.{get, insert}
use ethereum_prototype.Crates.Rlp.Sample as RlpSample
use ethereum_prototype.Crates.Crypto.Sample as CryptoSample
use ethereum_prototype.Transaction
use ethereum_prototype.Signature.{u64_mod}
use ethereum_prototype.Transaction.Unverified.{receiver, with_signature}
use ethereum_prototype.Transaction.Signed.{SignedTransaction, contract_address}
use ethereum_prototype.Transaction.Pending.{TransactionInfo}
use ethereum_prototype.Ethcore.{Block, hash, rlp, compute_hash}
use ethereum_prototype.RpcTypes.{default_receipt}
use ethereum_prototype.Backend.{Accounts, transact}
use ethereum_prototype.Backend.Accounts.{changes, world}
use ethereum_prototype.Db.{
  HashMapEthDb, next_header, submit_tx, receipt, estimate_gas, query_backend, or_empty,
}
use ethereum_prototype.Db.Valid.{IsValid}
use ethereum_prototype.Db.Valid.Init.{genesis}
use ethereum_prototype.Db.Valid.Submit.{start_backend, block_after}
use ethereum_prototype.Db.Submission.{Submitted, submit_tx_total}
use ethereum_prototype.Db.Effects.{world_of, submit_tx-world}
use ethereum_prototype.Db.Receipts.{receipt_in, receipt_lem}
use ethereum_prototype.Db.Inclusion.{receipt-submit_tx, receipt-submit_tx_ne}
use ethereum_prototype.Db.Estimates.{Leaves, estimate_gas-Leaves}
use ethereum_prototype.Backend.Runs.{succeeded}
use ethereum_prototype.Db.Inputs.{submit_tx_blind}
use ethereum_prototype.Tests.Fixtures.{
  transfer, codec, crypto, evm, signed, db0, db0-IsValid, db1, db1-IsValid, submit-signed,
}

submit_tx_total_example :
    (db' : HashMapEthDb) × (r : Result String (Unit {0})) × (submit_tx codec crypto evm db1 signed
        (some 102)
      ≡ ret (db', r))
    × IsValid codec crypto db'
    × Submitted codec crypto evm db1 signed db' r
submit_tx_total_example = submit_tx_total codec crypto evm db1 db1-IsValid signed 102

submit_tx-world_example :
    (best : Block) × (before : Accounts) × (after : Accounts) × (get_last? db0.blocks ≡ some best)
    × (get_last? db0.accounts ≡ some before)
    × (get_last? db1.accounts ≡ some after)
    × let start = start_backend codec crypto signed 101 db0 best before in
      let run =
        transact evm start signed.sender signed.transaction.unsigned.value
          (receiver signed.transaction)
          signed.transaction.unsigned.tx_data in
      world_of start after ≡ changes (world start) run.values
submit_tx-world_example = submit_tx-world codec crypto evm db0 db0-IsValid signed 101 submit-signed

receipt-submit_tx_example :
    (block : Block) × (get_last? db1.blocks ≡ some block)
    × (block.transactions ≡ signed ∷ [])
    × (receipt codec crypto db1 signed.transaction.hash
        ≡ ret (
            some (record default_receipt {
              transaction_hash = some signed.transaction.hash;
              transaction_index = some 0;
              block_hash = some (hash codec crypto block.header);
              from = some signed.sender;
              to = receiver signed.transaction;
              block_number = some (length db0.blocks);
              contract_address = contract_address codec crypto signed;
              state_root = some (length db0.blocks);
              status_code = some 1;
            })))
receipt-submit_tx_example =
    receipt-submit_tx codec crypto evm db0 db0-IsValid signed 101 (omega arith) submit-signed

-- The block of the transfer has another hash than the genesis block.
new_hash_at :
    get db0.hash_index
      (hash codec crypto (block_after codec crypto signed 101 (genesis codec crypto 100)).header)
    ≡ none
unfolding hash compute_hash CryptoSample.sample RlpSample.sample get insert rlp next_header
    with_signature Transaction.hash
new_hash_at = refl

last_block :
    get_last? db1.blocks ≡ some (block_after codec crypto signed 101 (genesis codec crypto 100))
unfolding submit_tx
last_block = refl

new_hash :
    (b : Block)
    → get_last? db1.blocks ≡ some b
    → get db0.hash_index (hash codec crypto b.header) ≡ none
new_hash b h =
    subst
      (λ o. elim o [
        | none ↦ Unit
        | some x ↦ get db0.hash_index (hash codec crypto x.header) ≡ none
      ])
      (sym last_block ∙ h) new_hash_at

other_hash : 77 ≢ signed.transaction.hash
unfolding with_signature CryptoSample.sample RlpSample.sample Transaction.hash
other_hash h = omega arith

receipt-submit_tx_ne_example : receipt codec crypto db1 77 ≡ receipt codec crypto db0 77
receipt-submit_tx_ne_example =
    receipt-submit_tx_ne codec crypto evm db0 db0-IsValid signed 101 (omega arith) 77 submit-signed
      new_hash other_hash

two_blocks : length db1.blocks ≤ u64_mod
unfolding submit_tx
two_blocks = omega arith

receipt_lem_example :
    ((get db1.infos signed.transaction.hash ≡ none)
      × (receipt codec crypto db1 signed.transaction.hash ≡ ret none))
    ⊎ ((info : TransactionInfo) × (tx : SignedTransaction) × (b : Block) × (get db1.infos
            signed.transaction.hash
          ≡ some info)
        × (info.transaction ≡ some tx)
        × (tx.transaction.hash ≡ signed.transaction.hash)
        × (get_elem? db1.blocks b.header.number ≡ some b)
        × (hash codec crypto b.header ≡ info.block_hash)
        × (receipt codec crypto db1 signed.transaction.hash
            ≡ ret (some (receipt_in codec crypto tx info b))))
receipt_lem_example = receipt_lem codec crypto db1 db1-IsValid two_blocks signed.transaction.hash

-- A transfer of 5 from 9 to 42 over the genesis block, not sent but estimated.
estimate_gas-Leaves_example :
    (best : Block) × (before : Accounts) × (after : Accounts) × (db' : HashMapEthDb) × (get_last?
        db0.blocks
      ≡ some best)
    × (get_elem? db0.accounts 0 ≡ some before)
    × let start = query_backend before 9 best db0.config in
      let run = transact evm start 9 5 (some 42) [] in
      (estimate_gas evm db0 0 9 5 (some 42) []
        ≡ ret (db', (run.result.0, or_empty run.result.1, run.used_gas)))
      × Leaves evm start 9 5 (some 42) [] (succeeded run.result.0) after
      × ((i : ℕ)
          → get_elem? db'.accounts i ≡ (if 0 == i then some after else get_elem? db0.accounts i))
      × (db'.blocks ≡ db0.blocks)
      × (db'.hash_index ≡ db0.hash_index)
      × (db'.infos ≡ db0.infos)
      × (db'.config ≡ db0.config)
estimate_gas-Leaves_example =
    estimate_gas-Leaves codec crypto evm db0 db0-IsValid 0 9 5 (some 42) [] (omega arith)

-- The transfer once more, with another nonce and more gas.
abbrev again : SignedTransaction
again = record signed {
  transaction = record signed.transaction { unsigned = record transfer { nonce = 7; gas = 30000 } };
}

submit_tx_blind_example :
    (db1 : HashMapEthDb) × (db2 : HashMapEthDb) × (r : Result String (Unit {0})) × (submit_tx codec
        crypto evm db0 signed
        (some 101)
      ≡ ret (db1, r))
    × (submit_tx codec crypto evm db0 again (some 101) ≡ ret (db2, r))
    × (db1.accounts ≡ db2.accounts)
unfolding with_signature
submit_tx_blind_example =
    submit_tx_blind codec crypto signed again 101
      (record { sender = refl; gas_price = refl; value = refl; action = refl; tx_data = refl }) evm
      db0 db0-IsValid
