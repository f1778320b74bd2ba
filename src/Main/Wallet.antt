-- ===== src/Main/Wallet.antt =====
-- A wallet at the server of src/main.rs: it signs a transaction, sends it, and asks for the
-- receipt.
use ethereum_prototype.Base.{
  ℕ, ◌<◌, ◌≡◌, refl, sym, ap, ◌∙◌, String, true, false, Option, some, length, Result, ok, err, ret,
  arith,
}
use ethereum_prototype.Crates.JsonRpc
use ethereum_prototype.Crates.JsonRpc.{JsonRpc}
use ethereum_prototype.Crates.Rlp
use ethereum_prototype.Crates.Rlp.{Rlp}
use ethereum_prototype.Crates.Crypto
use ethereum_prototype.Crates.Crypto.{Crypto}
use ethereum_prototype.Crates.Evm.{Evm}
use ethereum_prototype.Signature.{u64_mod}
use ethereum_prototype.Transaction.{Transaction}
use ethereum_prototype.Transaction.Unverified.{rlp_bytes}
use ethereum_prototype.Transaction.Unverified.Codec.{InRange}
use ethereum_prototype.Transaction.Signed.{SignedTransaction, sign}
use ethereum_prototype.Transaction.Signed.Signing.{ChainFits}
use ethereum_prototype.RpcTypes.{RpcReceipt, Bytes}
use ethereum_prototype.Db.{receipt}
use ethereum_prototype.Db.Valid.{IsValid}
use ethereum_prototype.Rpc.Runtime.{Runtime, Reply, with_db}
use ethereum_prototype.Rpc.Eth
use ethereum_prototype.Rpc.Eth.Sending.{Sent, send_signed}
use ethereum_prototype.Rpc.Service.{
  Method, Params, send_raw_transaction, transaction_receipt, handle, name_of,
}
use ethereum_prototype.Rpc.Service.Table.{handlers}
use ethereum_prototype.Rpc.Service.Dispatch.{Request, tag, tag_result}
use ethereum_prototype.Rpc.Service.Healthy.{Healthy-refl}
use ethereum_prototype.Rpc.Service.Answers.{handle-Answered}
use ethereum_prototype.Main.{Server, serve}
use ethereum_prototype.Main.Requests.{serve_named, serve-table}

module _ (I : JsonRpc Method) (R : Rlp) (C : Crypto) (E : Evm) {J : Type 0}
    (parse : (m : Method) → J → Result String (Params m)) where
  -- What the server tells the wallet: the hash, and for that hash the receipt in the new block; or
  -- an error, and the server is as it was.
  abbrev pub Told :
      Server I → SignedTransaction → ℕ → Server I → (ℕ → Request J) → Result String ℕ → Type 0
  Told s tx sender s' ask (ok h) =
      (h ≡ C.keccak (rlp_bytes R tx.transaction))
      × (r : RpcReceipt) × ((serve I R C E parse s' (ask h)).1
          ≡ ret (ok (transaction_receipt, some r)))
      × (r.transaction_hash ≡ some h)
      × (r.from ≡ some sender)
      × (r.block_number ≡ some (length s.runtime.eth_db.blocks))
      × (r.status_code ≡ some 1)
  Told s tx sender s' ask (err message) = s'.runtime ≡ s.runtime

  receipt_answered :
      (rt : Runtime) (h : ℕ) {r : RpcReceipt}
      → rt.poisoned ≡ false
      → receipt R C rt.eth_db h ≡ ret (some r)
      → Eth.transaction_receipt R C rt h ≡ ret (ok (some r))
  unfolding Eth.transaction_receipt with_db
  receipt_answered rt h up e = rw (up, e, Eth.transaction_receipt) refl

  -- Sending leaves the lock free.
  sent_up :
      (rt : Runtime)
      → rt.poisoned ≡ false
      → IsValid R C rt.eth_db
      → length rt.eth_db.blocks < u64_mod
      → (timestamp : ℕ) (raw : Bytes) {rt' : Runtime} {reply : Result String ℕ}
      → Eth.send_raw_transaction R C E (some timestamp) rt raw ≡ (rt', ret reply)
      → rt'.poisoned ≡ false
  unfolding handle
  sent_up rt up v small timestamp raw answered =
      let (reply, given, healthy) =
        handle-Answered R C E rt up v (omega (arith, small)) (λ x. x) (Healthy-refl R C E up v)
          (some timestamp) send_raw_transaction raw tt in
      ap (λ x. x.0.poisoned) (sym answered) ∙ healthy.up

  handled_send :
      (rt : Runtime) (q : Request J) (timestamp : ℕ) (raw : Bytes) {out : Runtime × Reply ℕ}
      → q.now ≡ some timestamp
      → Eth.send_raw_transaction R C E (some timestamp) rt raw ≡ out
      → handle R C E q.others q.now send_raw_transaction raw rt ≡ out
  unfolding handle
  handled_send rt q timestamp raw now e = rw (now, handle) e

  module _ (L : JsonRpc.IsLawful I) (s : Server I) (full : s.table ≡ handlers I)
      (tx : SignedTransaction) (sender : ℕ) (send : Request J) (ask : ℕ → Request J)
      (asked : (h : ℕ) → (ask h).name ≡ name_of transaction_receipt)
      (heard : (h : ℕ) → parse transaction_receipt (ask h).params ≡ ok h) where
    -- The request for the receipt, after the transaction has been sent.
    Told-Sent :
        (rt' : Runtime) (reply : Result String ℕ)
        → (serve I R C E parse s send).0.runtime ≡ rt'
        → rt'.poisoned ≡ false
        → Sent R C E s.runtime tx sender rt' reply
        → Told s tx sender (serve I R C E parse s send).0 ask reply
    unfolding handle
    Told-Sent rt' (err message) left up same = left ∙ same
    Told-Sent rt' (ok h) left up (hashed, more, (r, found, th, from, at, status)) =
        let s' = (serve I R C E parse s send).0 in
        let (runtime, reply) =
          serve_named I R C E parse L s' (serve-table I R C E parse s send ∙ full) (ask h)
            transaction_receipt h (asked h) (heard h) in
        let answered : Eth.transaction_receipt R C s'.runtime h ≡ ret (ok (some r)) =
          ap (λ x. Eth.transaction_receipt R C x h) left ∙ receipt_answered rt' h up found in
        (hashed, r, reply ∙ ap (tag transaction_receipt) answered, th, from, at, status)

  module _ (L : JsonRpc.IsLawful I) (LR : Rlp.IsLawful R) (K : Crypto.IsLawful C) (s : Server I)
      (full : s.table ≡ handlers I) (up : s.runtime.poisoned ≡ false)
      (v : IsValid R C s.runtime.eth_db) (small : length s.runtime.eth_db.blocks < u64_mod)
      (t : Transaction) (secret timestamp : ℕ) (chain : Option ℕ) where
    -- A wallet signs a transaction with a valid secret for a chain id that fits, and its fields fit
    -- their types. It sends the encoding, by the name `eth_sendRawTransaction`, to a server with
    -- all its methods in the table, a lock that is not poisoned and a valid database of fewer than
    -- 2^64 blocks, with a clock after 1970, and asks for the receipt of the hash that it is told,
    -- by the name `eth_getTransactionReceipt`; the parameters of both requests are read as they
    -- were meant, and the crates have their laws. Either it is told the hash of the encoding, and
    -- then gets a receipt with that hash, the address of the secret's public key as the sender, the
    -- number of the new block and status 1. Or it is told an error, and the server's runtime is as
    -- it was.
    pub receipt-send-sign :
        {tx : SignedTransaction} (send : Request J) (ask : ℕ → Request J)
        → K.is_secret secret ≡ true
        → ChainFits chain
        → sign R C t secret chain ≡ ret tx
        → InRange tx.transaction
        → send.name ≡ name_of send_raw_transaction
        → send.now ≡ some timestamp
        → parse send_raw_transaction send.params
          ≡ ok (record { content = rlp_bytes R tx.transaction })
        → ((h : ℕ) → (ask h).name ≡ name_of transaction_receipt)
        → ((h : ℕ) → parse transaction_receipt (ask h).params ≡ ok h)
        → (reply : Result String ℕ) × ((serve I R C E parse s send).1
            ≡ ret (tag_result send_raw_transaction reply))
          × Told s tx
              (C.public_to_address (K.public_of secret))
              (serve I R C E parse s send).0
              ask
              reply
    receipt-send-sign {tx} send ask valid fits signed range named now read asked heard =
        let rt = s.runtime in
        let raw : Bytes = record { content = rlp_bytes R tx.transaction } in
        let (rt', reply, answered, valid', sent) =
          send_signed R C E LR K rt v up small t secret timestamp chain valid fits signed range in
        let out = handled_send rt send timestamp raw now answered in
        let (left, replied) =
          serve_named I R C E parse L s full send send_raw_transaction raw named read in
        let up' : rt'.poisoned ≡ false = sent_up rt up v small timestamp raw answered in
        (
          reply,
          replied ∙ ap (λ x. tag send_raw_transaction x.1) out,
          Told-Sent L s full tx (C.public_to_address (K.public_of secret)) send ask asked heard rt'
              reply (left ∙ ap (λ x. x.0) out) up' sent,
        )
