-- ===== src/Rpc/Service/Answers.antt =====
-- src/rpc.rs: what each method needs of a healthy server, and its answer.
use ethereum_prototype.Base.{
  ℕ, ◌≤◌, ◌<◌, ◌≡◌, ◌≢◌, refl, Bool, sym, inl, inr, false, Option, none, some, length,
  get_elem?-of_lt, get_elem?-lt, ok, err, ret, panic, Result-cases, Option-cases, arith,
}
use mathlib.Core.Path.{subst}
use ethereum_prototype.Crates.Rlp.{Rlp}
use ethereum_prototype.Crates.Crypto.{Crypto}
use ethereum_prototype.Crates.Evm.{Evm}
use ethereum_prototype.Signature.{u64_mod}
use ethereum_prototype.Transaction.Signed.{SignedTransaction}
use ethereum_prototype.RpcTypes.{Bytes, CallRequest, vec_of}
use ethereum_prototype.Db.{Clock, HashMapEthDb}
use ethereum_prototype.Db.Valid.{IsValid}
use ethereum_prototype.Db.Submission.{submit_tx_total}
use ethereum_prototype.Db.Receipts.{receipt_lem}
use ethereum_prototype.Rpc.BlockNumber.{BlockNumber}
use ethereum_prototype.Rpc.Runtime.{Runtime, with_db, with_mut_db}
use ethereum_prototype.Rpc.Eth
use ethereum_prototype.Rpc.Eth.{
  parse_locked, parse_raw, submit_parsed, call_locked, estimate_locked, or_zero, or_nil,
}
use ethereum_prototype.Rpc.Eth.Steps.{submit_parsed-Kept, call_locked-Kept, estimate_locked-Kept}
use ethereum_prototype.Rpc.Eth.Numbers.{
  parse_locked-eq-ok, call_locked-ne-panic, estimate_locked-ne-panic,
}
use ethereum_prototype.Rpc.Eth.Reads.{block_by_number_lem}
use ethereum_prototype.Rpc.Service.{
  Method, client_version, sha3, version, peer_count, is_listening, protocol_version, author,
  syncing, is_mining, chain_id, gas_price, accounts, block_number, send_raw_transaction, call,
  hashrate, balance, block_by_number, estimate_gas, transaction_count, transaction_receipt, Params,
  handle,
}
use ethereum_prototype.Rpc.Service.Healthy.{
  InChain, Healthy, Answered, Healthy-refl, locked-Answered, read-Answered, Answered-after,
  parse_number-InChain,
}

abbrev HasTime : Clock → Type 0
HasTime none = ⊥
HasTime (some t) = Unit

-- What a request needs to be answered: `eth_call` and `eth_estimateGas` name a block that there is,
-- and the clock of a transaction is past 1970.
abbrev pub IsServable : HashMapEthDb → Clock → (m : Method) → Params m → Type 0
IsServable db now send_raw_transaction raw = HasTime now
IsServable db now call (req, number) = InChain db number
IsServable db now estimate_gas (req, number) = InChain db number
IsServable db now _ p = Unit

-- The reads under two locks never panic.
balance-ne-panic :
    (others : Runtime → Runtime) (rt : Runtime) (address : ℕ) (n : Option BlockNumber)
    → Eth.balance others rt address n ≢ panic
unfolding Eth.balance with_db
balance-ne-panic others rt address n e = ground arith

transaction_count-ne-panic :
    (others : Runtime → Runtime) (rt : Runtime) (k : ℕ) (n : Option BlockNumber)
    → Eth.transaction_count others rt k n ≢ panic
unfolding Eth.transaction_count with_db
transaction_count-ne-panic others rt k n e = ground arith

module _ (R : Rlp) (C : Crypto) (E : Evm) where
  submit_parsed-ne-panic :
      (db : HashMapEthDb) (s : SignedTransaction) (t : ℕ)
      → IsValid R C db
      → submit_parsed R C E (some t) s db ≢ panic
  unfolding submit_parsed
  submit_parsed-ne-panic db s t v e =
      let (db', r, run, valid, rest) = submit_tx_total R C E db v s t in ground arith

  module _ (rt : Runtime) (up : rt.poisoned ≡ false) (v : IsValid R C rt.eth_db) where
    send-Answered :
        (t : ℕ) (raw : Bytes) → Answered R C E rt (Eth.send_raw_transaction R C E (some t) rt raw)
    unfolding Eth.send_raw_transaction
    send-Answered t raw = elim (Result-cases (parse_raw R C raw)) [
      | inl (e, failed) ↦
          rw (failed, Eth.send_raw_transaction) (err e, refl, Healthy-refl R C E up v)
      | inr (s, parsed) ↦
          rw (parsed, Eth.send_raw_transaction)
            (locked-Answered R C E rt (submit_parsed R C E (some t) s) up
              (submit_parsed-ne-panic rt.eth_db s t v)
              (λ db' r h. submit_parsed-Kept R C E (some t) s v h))
    ]

    module _ (small : length rt.eth_db.blocks ≤ u64_mod) (others : Runtime → Runtime)
        (h : Healthy R C E rt (others rt)) (number : Option BlockNumber)
        (there : InChain rt.eth_db number) where
      -- A number that was parsed under the first lock is that of a block under the second.
      in_chain :
          {n : ℕ}
          → parse_locked rt number "parse number failed" ≡ ok n
          → (n < length (others rt).eth_db.accounts) × (0 < length (others rt).eth_db.blocks)
      in_chain {n} parsed =
          let before =
            parse_number-InChain R C E number rt.eth_db v small there
              (parse_locked-eq-ok rt number "parse number failed" parsed) in
          let (b, at) = get_elem?-of_lt rt.eth_db.blocks n before in
          let after = get_elem?-lt (others rt).eth_db.blocks n (h.kept.continues n b at) in
          (omega (arith, h.kept.valid.states), h.kept.valid.chain.pos)

      call-Answered : (req : CallRequest) → Answered R C E rt (Eth.call others E rt req number)
      unfolding Eth.call
      call-Answered req = elim (Option-cases req.to) [
        | inl missing ↦
            let e : Eth.call others E rt req number ≡ (rt, ret (err "missing contract address")) =
              ground arith in
            subst (Answered R C E rt) (sym e) (_, refl, Healthy-refl R C E up v)
        | inr (to, given) ↦ elim (Result-cases (parse_locked rt number "parse number failed")) [
          | inl (m, failed) ↦
              let e : Eth.call others E rt req number ≡ (rt, ret (err m)) = ground arith in
              subst (Answered R C E rt) (sym e) (_, refl, Healthy-refl R C E up v)
          | inr (n, parsed) ↦
              let from = or_zero req.from in
              let input = or_nil (vec_of req.call_data) in
              let f = call_locked E n from to input in
              let e : Eth.call others E rt req number ≡ with_mut_db (others rt) f = ground arith in
              let (lt, pos) = in_chain parsed in
              subst (Answered R C E rt) (sym e) (
                Answered-after R C E h (
                  locked-Answered R C E (others rt) f h.up
                    (call_locked-ne-panic E n from to input (others rt).eth_db lt pos)
                    (λ db' r k. call_locked-Kept R C E n from to input h.kept.valid k)))
        ]
      ]

      estimate_gas-Answered :
          (req : CallRequest) → Answered R C E rt (Eth.estimate_gas others E rt req number)
      unfolding Eth.estimate_gas
      estimate_gas-Answered req =
          elim (Result-cases (parse_locked rt number "parse number failed")) [
            | inl (m, failed) ↦
                let e : Eth.estimate_gas others E rt req number ≡ (rt, ret (err m)) =
                  ground arith in
                subst (Answered R C E rt) (sym e) (_, refl, Healthy-refl R C E up v)
            | inr (n, parsed) ↦
                let from = or_zero req.from in
                let value = or_zero req.value in
                let input = or_nil (vec_of req.call_data) in
                let f = estimate_locked E n from value req.to input in
                let e : Eth.estimate_gas others E rt req number ≡ with_mut_db (others rt) f =
                  ground arith in
                let (lt, pos) = in_chain parsed in
                subst (Answered R C E rt) (sym e) (
                  Answered-after R C E h (
                    locked-Answered R C E (others rt) f h.up
                      (estimate_locked-ne-panic E n from value req.to input (others rt).eth_db lt
                        pos)
                      (λ db' r k.
                        estimate_locked-Kept R C E n from value req.to input h.kept.valid k)))
          ]

    module _ (small : length rt.eth_db.blocks ≤ u64_mod) where
      block_number-ne-panic : Eth.block_number rt ≢ panic
      block_number-ne-panic e =
          let (best, last, numbered, blocks) = block_by_number_lem R C rt up v small in ground arith

      block_by_number-ne-panic :
          (n : BlockNumber) (full : Bool) → Eth.block_by_number R C rt n full ≢ panic
      block_by_number-ne-panic n full e =
          let (best, last, numbered, blocks) = block_by_number_lem R C rt up v small in
          ground (arith, blocks n full)

      receipt-ne-panic : (k : ℕ) → Eth.transaction_receipt R C rt k ≢ panic
      unfolding Eth.transaction_receipt
      receipt-ne-panic k e = elim (receipt_lem R C rt.eth_db v small k) [
        | inl (unknown, found) ↦ ground arith
        | inr (info, tx, b, known, held, at_hash, at, block_hash, found) ↦ ground arith
      ]

  -- On a server with a lock that is not poisoned and a valid database of at most 2^64 blocks every
  -- method answers, with a result or an error and without a panic, and leaves the lock free, the
  -- database valid and its blocks in their places; so it is if other threads keep all this between
  -- two locks of the method, if the number that an `eth_call` or `eth_estimateGas` names explicitly
  -- is that of a block, and if the clock of an `eth_sendRawTransaction` is past 1970.
  pub handle-Answered :
      (rt : Runtime)
      → rt.poisoned ≡ false
      → IsValid R C rt.eth_db
      → length rt.eth_db.blocks ≤ u64_mod
      → (others : Runtime → Runtime) → Healthy R C E rt (others rt)
      → (now : Clock) (m : Method) (p : Params m) → IsServable rt.eth_db now m p
      → Answered R C E rt (handle R C E others now m p rt)
  unfolding handle
  handle-Answered rt up v small others h now client_version p s = (_, refl, Healthy-refl R C E up v)
  handle-Answered rt up v small others h now sha3 p s = (_, refl, Healthy-refl R C E up v)
  handle-Answered rt up v small others h now version p s = (_, refl, Healthy-refl R C E up v)
  handle-Answered rt up v small others h now peer_count p s = (_, refl, Healthy-refl R C E up v)
  handle-Answered rt up v small others h now is_listening p s = (_, refl, Healthy-refl R C E up v)
  handle-Answered rt up v small others h now protocol_version p s =
      (_, refl, Healthy-refl R C E up v)
  handle-Answered rt up v small others h now author p s = (_, refl, Healthy-refl R C E up v)
  handle-Answered rt up v small others h now syncing p s = (_, refl, Healthy-refl R C E up v)
  handle-Answered rt up v small others h now is_mining p s = (_, refl, Healthy-refl R C E up v)
  handle-Answered rt up v small others h now chain_id p s = (_, refl, Healthy-refl R C E up v)
  handle-Answered rt up v small others h now gas_price p s = (_, refl, Healthy-refl R C E up v)
  handle-Answered rt up v small others h now accounts p s = (_, refl, Healthy-refl R C E up v)
  handle-Answered rt up v small others h now hashrate p s = (_, refl, Healthy-refl R C E up v)
  handle-Answered rt up v small others h now block_number p s =
      read-Answered R C E rt (Eth.block_number rt) up v (block_number-ne-panic rt up v small)
  handle-Answered rt up v small others h none send_raw_transaction raw s = absurd s
  handle-Answered rt up v small others h (some t) send_raw_transaction raw s =
      send-Answered rt up v t raw
  handle-Answered rt up v small others h now call (req, number) s =
      call-Answered rt up v small others h number s req
  handle-Answered rt up v small others h now balance (address, number) s =
      read-Answered R C E rt (Eth.balance others rt address number) up v
        (balance-ne-panic others rt address number)
  handle-Answered rt up v small others h now block_by_number (number, full) s =
      read-Answered R C E rt (Eth.block_by_number R C rt number full) up v
        (block_by_number-ne-panic rt up v small number full)
  handle-Answered rt up v small others h now estimate_gas (req, number) s =
      estimate_gas-Answered rt up v small others h number s req
  handle-Answered rt up v small others h now transaction_count (k, number) s =
      read-Answered R C E rt (Eth.transaction_count others rt k number) up v
        (transaction_count-ne-panic others rt k number)
  handle-Answered rt up v small others h now transaction_receipt k s =
      read-Answered R C E rt (Eth.transaction_receipt R C rt k) up v
        (receipt-ne-panic rt up v small k)
