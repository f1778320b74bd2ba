-- ===== src/Db.antt =====
-- src/db.rs: `HashMapEthDB`, the chain of blocks with the accounts after each of them. Arithmetic
-- on `u64` wraps. A function that may panic returns an `Outcome`.
pub mod Chain
pub mod Valid
pub mod Submission
pub mod Effects
pub mod Inputs
pub mod Receipts
pub mod Inclusion
pub mod Listed
pub mod Queries
pub mod Estimates
use ethereum_prototype.Base.{
  ℕ, ◌+◌, ◌-◌, ◌%◌, String, Option, none, some, List, [], ◌∷◌, length, get_elem?, set, get_last?,
  push, Result, ok, err, Outcome, ret, panic, and_then, unwrap,
}
use ethereum_prototype.Base.Map.{Map, get, insert}
use ethereum_prototype.Crates.Rlp.{Rlp}
use ethereum_prototype.Crates.Crypto.{Crypto}
use ethereum_prototype.Crates.Evm.{Evm, Config, istanbul, ExitReason, succeed}
use ethereum_prototype.Signature.{u64_mod}
use ethereum_prototype.Transaction.Unverified.{receiver}
use ethereum_prototype.Transaction.Signed.{SignedTransaction, contract_address}
use ethereum_prototype.Transaction.Pending.{TransactionInfo, default_info}
use ethereum_prototype.Ethcore
use ethereum_prototype.Ethcore.{Header, Block, default_header, transaction_root, compute_hash}
use ethereum_prototype.Backend
use ethereum_prototype.Backend.{Accounts, EthDbBackend, execute}
use ethereum_prototype.RpcTypes.{RpcReceipt, default_receipt}

-- `duration_since(UNIX_EPOCH)` of the system clock is an argument: the seconds, or `none` before
-- 1970.
abbrev pub Clock : Type 0
Clock = Option ℕ

unfoldable pub unix : Clock → Outcome ℕ
unix none = panic
unix (some n) = ret n

pub record HashMapEthDb : Type 0 where
  pub blocks : List Block
  pub accounts : List Accounts
  pub hash_index : Map ℕ
  pub config : Config
  pub infos : Map TransactionInfo

module _ (R : Rlp) (C : Crypto) where
  unfoldable pub create_genesis : HashMapEthDb → Clock → Outcome HashMapEthDb
  unfolding unix compute_hash
  create_genesis db now = and_then (unix now) λ timestamp.
      let (h, digest) = compute_hash R C (record (default_header C) { timestamp = timestamp }) in
      ret (record db {
        blocks = push db.blocks (record { header = h; transactions = []; uncles = [] });
        hash_index = insert db.hash_index digest 0;
        accounts = push db.accounts [];
      })

  -- `HashMapEthDB::new`
  unfoldable pub new : Clock → Outcome HashMapEthDb
  unfolding create_genesis
  new now =
      create_genesis
        (record { blocks = []; accounts = []; hash_index = []; config = istanbul; infos = [] }) now

  -- The header of `new_block`, over the best block, before its hash is computed.
  unfoldable pub next_header : Block → List SignedTransaction → ℕ → Header
  unfolding transaction_root
  next_header best txs timestamp =
      let number = (best.header.number + 1) % u64_mod in
      record (default_header C) {
        parent_hash = Ethcore.hash R C best.header;
        number = number;
        state_root = number;
        receipts_root = number;
        timestamp = timestamp;
        transactions_root = transaction_root R C txs;
      }

  unfoldable pub new_block : HashMapEthDb → List SignedTransaction → Clock → Outcome Block
  unfolding unix next_header compute_hash
  new_block db txs now = and_then (unwrap (get_last? db.blocks)) λ best.
      and_then (unix now) λ timestamp. ret (record {
        header = (compute_hash R C (next_header best txs timestamp)).0;
        transactions = txs;
        uncles = [];
      })

  unfoldable pub save_block : HashMapEthDb → Block → HashMapEthDb
  save_block db block = record db {
    blocks = push db.blocks block;
    hash_index = insert db.hash_index (Ethcore.hash R C block.header) block.header.number;
  }

  -- The information of a transaction before it runs.
  unfoldable pub start_info : Block → Block → SignedTransaction → TransactionInfo
  start_info last block tx = record default_info {
    post_state = last.header.state_root;
    parent_hash = Ethcore.hash R C last.header;
    block_hash = Ethcore.hash R C block.header;
    index = 0;
    transaction = some tx;
  }

  -- What `submit_tx` stores after a success.
  unfoldable pub store_block :
      HashMapEthDb → SignedTransaction → Block → EthDbBackend → Option (List ℕ) → HashMapEthDb
  unfolding save_block
  store_block db tx block after res =
      let saved = save_block (record db { accounts = push db.accounts after.accounts }) block in
      record saved {
        infos = insert saved.infos tx.transaction.hash (record after.info { result = res });
      }

  module _ (E : Evm) where
    unfoldable pub submit_tx :
        HashMapEthDb → SignedTransaction → Clock → Outcome (HashMapEthDb × Result String (Unit {0}))
    unfolding new_block execute start_info store_block receiver
    submit_tx db tx now = and_then (new_block db (tx ∷ []) now) λ block.
        and_then (unwrap (get_last? db.accounts)) λ new_accounts.
          and_then (unwrap (get_last? db.blocks)) λ last.
            let (after, (exit_reason, res, gas)) =
              execute E
                (record {
                  accounts = new_accounts;
                  sender = tx.sender;
                  gas_price = tx.transaction.unsigned.gas_price;
                  block = block;
                  info = start_info last block tx;
                  config = db.config;
                })
                tx.sender tx.transaction.unsigned.value (receiver tx.transaction)
                tx.transaction.unsigned.tx_data in
            elim exit_reason [
              | succeed s ↦ ret (store_block db tx block after res, ok tt)
              | _ ↦ ret (db, err "invalid transaction received")
            ]

abbrev pub or_empty : Option (List ℕ) → List ℕ
or_empty none = []
or_empty (some o) = o

-- The backend of `estimate_gas` and `call`: the accounts of the block asked for, and the best
-- block.
abbrev pub query_backend : Accounts → ℕ → Block → Config → EthDbBackend
query_backend accounts caller block config = record {
  accounts = accounts;
  sender = caller;
  gas_price = 0;
  block = block;
  info = default_info;
  config = config;
}

module _ (E : Evm) where
  -- The run works on the accounts in place: what it applies stays in `self.accounts`.
  unfoldable pub estimate_gas :
      HashMapEthDb
      → ℕ
      → ℕ
      → ℕ
      → Option ℕ
      → List ℕ
      → Outcome (HashMapEthDb × (ExitReason × List ℕ × ℕ))
  unfolding execute
  estimate_gas db block_number caller value to input =
      and_then (unwrap (get_elem? db.accounts block_number)) λ accounts.
        and_then (unwrap (get_last? db.blocks)) λ block.
          let (after, (r, o, g)) =
            execute E (query_backend accounts caller block db.config) caller value to input in
          ret (
            record db { accounts = set db.accounts block_number after.accounts },
            (r, or_empty o, g),
          )

  unfoldable pub call :
      HashMapEthDb → ℕ → ℕ → ℕ → List ℕ → Outcome (HashMapEthDb × (ExitReason × List ℕ × ℕ))
  unfolding Backend.call
  call db block_number caller contract_address input =
      and_then (unwrap (get_elem? db.accounts block_number)) λ accounts.
        and_then (unwrap (get_last? db.blocks)) λ block. ret (
          db,
          Backend.call E (query_backend accounts caller block db.config) caller contract_address
              input,
        )

unfoldable pub best_number : HashMapEthDb → ℕ
best_number db = (length db.blocks + u64_mod - 1) % u64_mod

unfoldable pub best_block : HashMapEthDb → Outcome Block
best_block db = unwrap (get_elem? db.blocks ((length db.blocks + u64_mod - 1) % u64_mod))

module _ (R : Rlp) (C : Crypto) where
  receipt_for : HashMapEthDb → ℕ → TransactionInfo → SignedTransaction → Outcome RpcReceipt
  receipt_for db hash info tx = and_then (unwrap (get db.hash_index info.block_hash)) λ number.
      ret (record default_receipt {
        transaction_hash = some hash;
        transaction_index = some info.index;
        block_hash = some info.block_hash;
        from = some tx.sender;
        to = receiver tx.transaction;
        block_number = some number;
        contract_address = contract_address R C tx;
        state_root = elim (get_elem? db.blocks number) [
          | some b ↦ some b.header.state_root
          | none ↦ none
        ];
        status_code = some 1;
      })

  unfoldable pub receipt : HashMapEthDb → ℕ → Outcome (Option RpcReceipt)
  unfolding receipt_for
  receipt db hash = elim (get db.infos hash) [
    | none ↦ ret none
    | some info ↦
        and_then (unwrap info.transaction)
          λ tx. and_then (receipt_for db hash info tx) λ r. ret (some r)
  ]
