-- ===== src/Tests/Server.antt =====
-- The server: its start, requests in a row, a raw transaction, and a call past the best block.
use ethereum_prototype.Base.{
  ℕ, ◌≡◌, ◌≢◌, refl, String, true, none, some, get_elem?, Result, ok, ret, panic, arith, Bool, [],
  get_last?, ◌==◌, if◌then◌else◌,
}
use ethereum_prototype.Crates.Crypto.Sample as CryptoSample
use ethereum_prototype.Crates.Rlp.Sample as RlpSample
use ethereum_prototype.Transaction.Unverified.{rlp_bytes}
use ethereum_prototype.RpcTypes.{CallRequest, block_of}
use ethereum_prototype.Db.{HashMapEthDb, query_backend}
use ethereum_prototype.Db.Valid.{IsValid}
use ethereum_prototype.Db.Valid.Init.{genesis}
use ethereum_prototype.Rpc.BlockNumber.{BlockNumber, num, latest, earliest}
use ethereum_prototype.Rpc.Runtime.{Runtime, with_mut_db}
use ethereum_prototype.Rpc.Eth.{
  block_number, block_by_number, balance, transaction_count, send_raw_transaction, submit_parsed,
  call, estimate_gas,
}
use ethereum_prototype.Rpc.Eth.Steps.{Reach, here, next, submit, Served, Reach-Served}
use ethereum_prototype.Rpc.Eth.Sending.{Sent, send_signed}
use ethereum_prototype.Rpc.Eth.Numbers.{named_ne_panic}
use ethereum_prototype.Rpc.Eth.Poison.{IsDown, poisoned-IsDown, call_past_end}
use ethereum_prototype.Base.Map.{get}
use ethereum_prototype.Ethcore.{Block}
use ethereum_prototype.Backend
use ethereum_prototype.Backend.Runs.{succeeded}
use ethereum_prototype.Db.Estimates.{Leaves}
use ethereum_prototype.Rpc.Service.Estimates.{estimate_gas_answer}
use ethereum_prototype.Rpc.Service.Healthy.{Healthy-refl}
use ethereum_prototype.Backend.{Accounts, account_or_default, transact}
use ethereum_prototype.Rpc.Eth.Reads.{balance_named, block_by_number_lem}
use ethereum_prototype.Main.{start}
use ethereum_prototype.Main.Started.{start-IsValid}
use ethereum_prototype.Tests.Transactions.{unverified-InRange}
use ethereum_prototype.Tests.Fixtures.{
  codec, crypto, evm, transfer, secret, signed, sign-signed, db0, db0-IsValid, rt0, alone,
}

send_signed_example :
    (rt' : Runtime) × (reply : Result String ℕ) × (send_raw_transaction codec crypto evm
        (some 101)
        rt0
        (record { content = rlp_bytes codec signed.transaction })
      ≡ (rt', ret reply))
    × IsValid codec crypto rt'.eth_db
    × Sent codec crypto evm rt0 signed
        (crypto.public_to_address (CryptoSample.sample-IsLawful.public_of secret))
        rt'
        reply
send_signed_example =
    send_signed codec crypto evm RlpSample.sample-IsLawful CryptoSample.sample-IsLawful rt0
      db0-IsValid refl (omega arith) transfer secret 101 (some 7)
      (CryptoSample.is_secret-sample secret (omega arith)) (omega arith) sign-signed
      unverified-InRange

start-IsValid_example :
    (rt : Runtime) × (start codec crypto (some 100) ≡ ret rt)
    × ((later : Runtime)
        → Reach codec crypto evm rt later
        → IsValid codec crypto later.eth_db
          × (get_elem? later.eth_db.blocks 0 ≡ some (genesis codec crypto 100)))
start-IsValid_example = start-IsValid codec crypto evm 100

-- One request: the transfer.
one_request :
    Reach codec crypto evm rt0
      (with_mut_db rt0 (submit_parsed codec crypto evm (some 101) signed)).0
one_request = next here (submit (some 101) signed refl)

Reach-Served_example :
    Served codec crypto evm rt0
      (with_mut_db rt0 (submit_parsed codec crypto evm (some 101) signed)).0
Reach-Served_example = Reach-Served codec crypto evm db0-IsValid one_request

abbrev request : CallRequest
request = record {
  from = some 9;
  to = some 42;
  gas_price = none;
  gas = none;
  value = some 5;
  call_data = none;
  nonce = none;
}

named_ne_panic_example :
    ((call alone evm rt0 request (some latest)).1 ≢ panic)
    × ((estimate_gas alone evm rt0 request (some latest)).1 ≢ panic)
named_ne_panic_example =
    named_ne_panic codec crypto evm alone rt0 db0-IsValid (omega arith) here (some latest) tt
      request

call_past_end_example :
    ((call alone evm rt0 request (some (num 1))).1 ≡ panic)
    × ((later : Runtime)
        → Reach codec crypto evm (call alone evm rt0 request (some (num 1))).0 later
        → IsDown codec crypto evm alone later)
call_past_end_example =
    call_past_end codec crypto evm alone rt0 1 request refl refl db0-IsValid (omega arith) refl

poisoned-IsDown_example : IsDown codec crypto evm alone (record rt0 { poisoned = true })
poisoned-IsDown_example =
    poisoned-IsDown codec crypto evm alone (record rt0 { poisoned = true }) refl

block_by_number_lem_example :
    (best : Block) × (get_last? db0.blocks ≡ some best)
    × (block_number rt0 ≡ ret (ok best.header.number))
    × ((number : BlockNumber) (full : Bool)
        → block_by_number codec crypto rt0 number full
          ≡ ret (ok (some (record { inner = block_of codec crypto best; extra_info = [] }))))
block_by_number_lem_example = block_by_number_lem codec crypto rt0 refl db0-IsValid (omega arith)

balance_named_example :
    (states : Accounts) × (get_elem? rt0.eth_db.accounts 0 ≡ some states)
    × (balance alone rt0 42 (some latest) ≡ ret (ok (account_or_default (get states 42)).balance))
    × (transaction_count alone rt0 42 (some latest)
        ≡ ret (ok (account_or_default (get states 42)).nonce))
balance_named_example =
    balance_named codec crypto evm alone rt0 refl refl 42 db0-IsValid (some latest) 0 (omega arith)
      here refl

estimate_gas_answer_example :
    (best : Block) × (before : Accounts) × (after : Accounts) × (db' : HashMapEthDb) × (get_last?
        rt0.eth_db.blocks
      ≡ some best)
    × (get_elem? rt0.eth_db.accounts 0 ≡ some before)
    × let start = query_backend before 9 best rt0.eth_db.config in
      let run = transact evm start 9 5 (some 42) [] in
      (estimate_gas alone evm rt0 request (some earliest)
        ≡ (record rt0 { eth_db = db' }, ret (ok run.used_gas)))
      × Leaves evm start 9 5 (some 42) [] (succeeded run.result.0) after
      × ((i : ℕ)
          → get_elem? db'.accounts i
            ≡ (if 0 == i then some after else get_elem? rt0.eth_db.accounts i))
      × (db'.blocks ≡ rt0.eth_db.blocks)
      × (db'.hash_index ≡ rt0.eth_db.hash_index)
      × (db'.infos ≡ rt0.eth_db.infos)
estimate_gas_answer_example =
    estimate_gas_answer codec crypto evm rt0 refl db0-IsValid (omega arith) alone
      (Healthy-refl codec crypto evm refl db0-IsValid) request (some earliest) 0 (refl, omega arith)
