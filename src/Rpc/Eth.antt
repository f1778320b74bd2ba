-- ===== src/Rpc/Eth.antt =====
-- src/rpc.rs: the methods of `Web3Client`, `NetClient` and `EthClient`. A handler that takes the
-- lock twice lets other threads run in between: `others` is what they do to the runtime.
pub mod Steps
pub mod Listing
pub mod Handlers
pub mod Sending
pub mod Accepting
pub mod Numbers
pub mod Named
pub mod Reads
pub mod Poison
use ethereum_prototype.Base.{
  ℕ, String, Bool, true, false, Option, none, some, List, [], get_elem?, Result, ok, err, Outcome,
  ret, panic, and_then, if◌then◌else◌,
}
use ethereum_prototype.Base.Map.{get}
use ethereum_prototype.Crates.Rlp.{Rlp}
use ethereum_prototype.Crates.Crypto.{Crypto}
use ethereum_prototype.Crates.Evm.{Evm, ExitReason, succeed}
use ethereum_prototype.Transaction.Unverified.{decode}
use ethereum_prototype.Transaction.Signed.{SignedTransaction, new_signed}
use ethereum_prototype.Ethcore.{MemAccount}
use ethereum_prototype.Backend.{Accounts, node_chain_id}
use ethereum_prototype.RpcTypes.{Bytes, Rich, RpcBlock, RpcReceipt, CallRequest, block_of, vec_of}
use ethereum_prototype.Db
use ethereum_prototype.Db.{HashMapEthDb, Clock, submit_tx, best_number, best_block}
use ethereum_prototype.Rpc.BlockNumber.{BlockNumber, parse_number}
use ethereum_prototype.Rpc.Runtime.{
  Runtime, Reply, lock_error, with_db, with_mut_db, rpc_try, rpc_err,
}

-- Web3Client
abbrev pub client_version : Result String String
client_version = ok "tethereum v0.1; rust"

abbrev pub sha3 : Crypto → Bytes → Result String ℕ
sha3 C b = ok (C.keccak b.content)

-- NetClient
-- `CHAIN_ID.to_string()`
abbrev pub version : Result String String
version = ok "127"

abbrev pub peer_count : Result String ℕ
peer_count = ok 0

abbrev pub is_listening : Result String Bool
is_listening = ok false

-- EthClient, the methods that answer with a constant
abbrev pub protocol_version : Result String String
protocol_version = ok "tethereum"

abbrev pub author : Result String ℕ
author = ok 0

abbrev pub is_mining : Result String Bool
is_mining = ok true

abbrev pub chain_id : Result String (Option ℕ)
chain_id = ok (some node_chain_id)

abbrev pub gas_price : Result String ℕ
gas_price = ok 0

abbrev pub accounts : Result String (List ℕ)
accounts = ok []

abbrev pub hashrate : Result String ℕ
hashrate = ok 0

abbrev pub syncing : Result String Bool
syncing = ok false

abbrev pub or_zero : Option ℕ → ℕ
or_zero none = 0
or_zero (some n) = n

abbrev pub or_nil : Option (List ℕ) → List ℕ
or_nil none = []
or_nil (some b) = b

unfoldable pub block_number : Runtime → Reply ℕ
unfolding with_db best_number
block_number rt = with_db rt λ db. ret (ok (best_number db))

unfoldable pub block_by_number :
    Rlp → Crypto → Runtime → BlockNumber → Bool → Reply (Option (Rich RpcBlock))
unfolding with_db best_block
block_by_number R C rt number full = with_db rt λ db.
    and_then (best_block db)
      λ best. ret (ok (some (record { inner = block_of R C best; extra_info = [] })))

unfoldable pub transaction_receipt : Rlp → Crypto → Runtime → ℕ → Reply (Option RpcReceipt)
unfolding with_db
transaction_receipt R C rt h = with_db rt λ db. and_then (Db.receipt R C db h) λ r. ret (ok r)

-- The parsing of `send_raw_transaction`: decoding, then verification of the signature.
unfoldable pub parse_raw : Rlp → Crypto → Bytes → Result String SignedTransaction
parse_raw R C raw = elim (decode R C raw.content) [
  | ok tx ↦ rpc_try (new_signed R C tx) "verify transaction failed"
  | err e ↦ err "rpc error: parse raw transaction failed from rlp"
]

-- What is done under the write lock: `rpc_try!(db.submit_tx(signed).map(|_| h), ..)`.
unfoldable pub submit_parsed :
    Rlp
    → Crypto
    → Evm
    → Clock
    → SignedTransaction
    → HashMapEthDb
    → Outcome (HashMapEthDb × Result String ℕ)
submit_parsed R C E now signed db = and_then (submit_tx R C E db signed now) λ (db', r). ret (
  db',
  elim r [
    | ok done ↦ ok signed.transaction.hash
    | err e ↦ err "rpc error: invalid transaction received"
  ],
)

unfoldable pub send_raw_transaction :
    Rlp → Crypto → Evm → Clock → Runtime → Bytes → Runtime × Reply ℕ
send_raw_transaction R C E now rt raw = elim (parse_raw R C raw) [
  | err e ↦ (rt, ret (err e))
  | ok signed ↦ with_mut_db rt (submit_parsed R C E now signed)
]

-- What `call` does under the write lock.
unfoldable pub call_locked :
    Evm → ℕ → ℕ → ℕ → List ℕ → HashMapEthDb → Outcome (HashMapEthDb × Result String Bytes)
call_locked E n from to input db =
    and_then (Db.call E db n from to input) λ (db', (reason, output, gas)). ret (
      db',
      elim reason [ succeed s ↦ ok (record { content = output }) | _ ↦ rpc_err "call failed" ],
    )

-- What `estimate_gas` does under the write lock.
unfoldable pub estimate_locked :
    Evm → ℕ → ℕ → ℕ → Option ℕ → List ℕ → HashMapEthDb → Outcome (HashMapEthDb × Result String ℕ)
estimate_locked E n from value to input db =
    and_then (Db.estimate_gas E db n from value to input)
      λ (db', (reason, output, gas)). ret (db', ok gas)

-- `get_db!(..)?` and `rpc_try!(EthClient::parse_number(num, db), ..)?`
unfoldable pub parse_locked : Runtime → Option BlockNumber → String → Result String ℕ
unfolding parse_number
parse_locked rt number message =
    if rt.poisoned then err lock_error else rpc_try (parse_number number rt.eth_db) message

balance_in : ℕ → Option Accounts → Result String ℕ
balance_in address none = err "invalid block number"
balance_in address (some states) = ok (elim (get states address) [ some a ↦ a.balance | none ↦ 0 ])

nonce_in : ℕ → Option Accounts → ℕ
nonce_in k none = 0
nonce_in k (some states) = elim (get states k) [ some a ↦ a.nonce | none ↦ 0 ]

module _ (others : Runtime → Runtime) where
  unfoldable pub balance : Runtime → ℕ → Option BlockNumber → Reply ℕ
  unfolding balance_in
  balance rt address number = elim (parse_locked rt number "parse block number failed") [
    | err e ↦ ret (err e)
    | ok n ↦ with_db (others rt) λ db. ret (balance_in address (get_elem? db.accounts n))
  ]

  unfoldable pub transaction_count : Runtime → ℕ → Option BlockNumber → Reply ℕ
  unfolding nonce_in
  transaction_count rt k number = elim (parse_locked rt number "parse number failed") [
    | err e ↦ ret (err e)
    | ok n ↦ with_db (others rt) λ db. ret (ok (nonce_in k (get_elem? db.accounts n)))
  ]

  call_to : Evm → Runtime → CallRequest → Option BlockNumber → ℕ → Runtime × Reply Bytes
  call_to E rt req number to = elim (parse_locked rt number "parse number failed") [
    | err e ↦ (rt, ret (err e))
    | ok n ↦
        with_mut_db (others rt)
          (call_locked E n (or_zero req.from) to (or_nil (vec_of req.call_data)))
  ]

  unfoldable pub call : Evm → Runtime → CallRequest → Option BlockNumber → Runtime × Reply Bytes
  unfolding call_to
  call E rt req number = elim req.to [
    | none ↦ (rt, ret (err "missing contract address"))
    | some to ↦ call_to E rt req number to
  ]

  unfoldable pub estimate_gas : Evm → Runtime → CallRequest → Option BlockNumber → Runtime × Reply ℕ
  estimate_gas E rt req number = elim (parse_locked rt number "parse number failed") [
    | err e ↦ (rt, ret (err e))
    | ok n ↦ with_mut_db (others rt) (
        estimate_locked E n (or_zero req.from) (or_zero req.value) req.to
          (or_nil (vec_of req.call_data)))
  ]
