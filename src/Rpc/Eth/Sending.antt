-- ===== src/Rpc/Eth/Sending.antt =====
-- `eth_sendRawTransaction` from the wallet to the receipt: a transaction is signed, encoded, sent,
-- decoded, verified and submitted.
use ethereum_prototype.Base.{
  ℕ, ◌<◌, ◌≡◌, refl, sym, ap, ◌∙◌, String, true, false, Option, some, length, Result, ok, err, ret,
  expect, List, inl, inr, Result-cases, arith, ret-injective,
}
use mathlib.Core.Path.{subst}
use ethereum_prototype.Crates.Rlp.{Rlp}
use ethereum_prototype.Crates.Rlp
use ethereum_prototype.Crates.Crypto
use ethereum_prototype.Crates.Crypto.{Crypto}
use ethereum_prototype.Crates.Evm.{Evm}
use ethereum_prototype.Signature.{u64_mod}
use ethereum_prototype.Transaction
use ethereum_prototype.Transaction.{Transaction}
use ethereum_prototype.Transaction.Unverified.{
  UnverifiedTransaction, rlp_bytes, compute_hash, decode, with_signature,
}
use ethereum_prototype.Transaction.Unverified.Codec.{InRange, decode-rlp_bytes}
use ethereum_prototype.Transaction.Signed.{SignedTransaction, new_signed, sign}
use ethereum_prototype.Transaction.Signed.Signing.{ChainFits, new_signed_iff, sign_total}
use ethereum_prototype.RpcTypes.{RpcReceipt}
use ethereum_prototype.Db.{HashMapEthDb, Clock, submit_tx, receipt}
use ethereum_prototype.Db.Valid.{IsValid}
use ethereum_prototype.Db.Submission.{submit_tx_total, Submitted, Extends}
use ethereum_prototype.Db.Inclusion.{receipt-submit_tx}
use ethereum_prototype.Rpc.Runtime.{Runtime, with_mut_db_ret}
use ethereum_prototype.Rpc.Eth.{parse_raw, submit_parsed, send_raw_transaction}

module _ (R : Rlp) (C : Crypto) where
  transaction-new_signed :
      (u : UnverifiedTransaction) {s : SignedTransaction}
      → new_signed R C u ≡ ok s
      → s.transaction ≡ u
  transaction-new_signed u {s} h =
      let (signed, (public, recovered, same)) = (new_signed_iff R C u s).0 h in
      ap (λ (x : SignedTransaction). x.transaction) same

  ok-of-expect {ℓ κ} :
      {A : Type ℓ} {X : Type κ} (r : Result X A) {a : A} → expect r ≡ ret a → r ≡ ok a
  ok-of-expect (ok b) h = cc
  ok-of-expect (err e) h = cc

  -- What was signed is verified again.
  new_signed-sign :
      (t : Transaction) (secret : ℕ) (chain : Option ℕ) {s : SignedTransaction}
      → sign R C t secret chain ≡ ret s
      → new_signed R C s.transaction ≡ ok s
  unfolding sign
  new_signed-sign t secret chain {s} h =
      elim (Result-cases (C.sign secret (Transaction.hash R C t chain))) [
        | inl (e, failed) ↦ absurd (ground arith)
        | inr (sig, signed) ↦
            let u = with_signature R C t sig chain in
            let made : new_signed R C u ≡ ok s = ok-of-expect (new_signed R C u) (ground arith) in
            subst (λ x. new_signed R C x ≡ ok s) (sym (transaction-new_signed u made)) made
      ]

  compute_hash_fresh :
      (u : UnverifiedTransaction) → u.hash ≡ C.keccak (rlp_bytes R u) → compute_hash R C u ≡ u
  unfolding compute_hash
  compute_hash_fresh u h = ap (λ d. record u { hash = d }) (sym h)

  parse_raw_ok :
      (raw : List ℕ) (u : UnverifiedTransaction) {s : SignedTransaction}
      → decode R C raw ≡ ok u
      → new_signed R C u ≡ ok s
      → parse_raw R C (record { content = raw }) ≡ ok s
  unfolding parse_raw
  parse_raw_ok raw u h k = ground arith

  parse_raw-rlp_bytes :
      (L : Rlp.IsLawful R) (s : SignedTransaction)
      → InRange s.transaction
      → s.transaction.hash ≡ C.keccak (rlp_bytes R s.transaction)
      → new_signed R C s.transaction ≡ ok s
      → parse_raw R C (record { content = rlp_bytes R s.transaction }) ≡ ok s
  parse_raw-rlp_bytes L s range hash verified =
      parse_raw_ok (rlp_bytes R s.transaction) s.transaction
        (decode-rlp_bytes R L C s.transaction range ∙ ap ok (compute_hash_fresh s.transaction hash))
        verified

-- The reply that `submit_parsed` makes of a result.
abbrev pub reply_of : SignedTransaction → Result String (Unit {0}) → Result String ℕ
reply_of s (ok done) = ok s.transaction.hash
reply_of s (err e) = err "rpc error: invalid transaction received"

module _ (R : Rlp) (C : Crypto) (E : Evm) where
  submit_parsed_lem :
      (now : Clock) (s : SignedTransaction) (db : HashMapEthDb) {db' : HashMapEthDb}
      (r : Result String (Unit {0}))
      → submit_tx R C E db s now ≡ ret (db', r)
      → submit_parsed R C E now s db ≡ ret (db', reply_of s r)
  unfolding submit_parsed
  submit_parsed_lem now s db (ok done) h = ground arith
  submit_parsed_lem now s db (err e) h = ground arith

  pub send_parsed :
      (rt : Runtime) (timestamp : ℕ) (raw : List ℕ) {s : SignedTransaction} {db' : HashMapEthDb}
      {r : Result String (Unit {0})}
      → rt.poisoned ≡ false
      → parse_raw R C (record { content = raw }) ≡ ok s
      → submit_tx R C E rt.eth_db s (some timestamp) ≡ ret (db', r)
      → send_raw_transaction R C E (some timestamp) rt (record { content = raw })
        ≡ (record rt { eth_db = db' }, ret (reply_of s r))
  unfolding send_raw_transaction
  send_parsed rt timestamp raw {s} {db'} {r} p parsed run =
      let inner = submit_parsed_lem (some timestamp) s rt.eth_db r run in
      let locked = with_mut_db_ret rt (submit_parsed R C E (some timestamp) s) p inner in
      ground (arith, locked)

  -- The receipt of a message call or creation by `sender`, in the block `number`.
  abbrev pub IsReceipt : HashMapEthDb → ℕ → ℕ → ℕ → Type 0
  IsReceipt db hash sender number =
      (r : RpcReceipt) × (receipt R C db hash ≡ ret (some r))
      × (r.transaction_hash ≡ some hash)
      × (r.from ≡ some sender)
      × (r.block_number ≡ some number)
      × (r.status_code ≡ some 1)

  -- What `eth_sendRawTransaction` replies to `s` and leaves.
  abbrev pub Sent : Runtime → SignedTransaction → ℕ → Runtime → Result String ℕ → Type 0
  Sent rt s sender rt' (ok hash) =
      (hash ≡ C.keccak (rlp_bytes R s.transaction))
      × Extends R C E rt.eth_db s rt'.eth_db
      × IsReceipt rt'.eth_db hash sender (length rt.eth_db.blocks)
  Sent rt s sender rt' (err message) = rt' ≡ rt

  module _ (L : Rlp.IsLawful R) (K : Crypto.IsLawful C) (rt : Runtime) (v : IsValid R C rt.eth_db)
      (up : rt.poisoned ≡ false) (small : length rt.eth_db.blocks < u64_mod) (t : Transaction)
      (secret timestamp : ℕ) (chain : Option ℕ) {s : SignedTransaction} where
    Sent-Submitted :
        (db' : HashMapEthDb) (r : Result String (Unit {0}))
        → sign R C t secret chain ≡ ret s
        → s.sender ≡ C.public_to_address (K.public_of secret)
        → s.transaction.hash ≡ C.keccak (rlp_bytes R s.transaction)
        → submit_tx R C E rt.eth_db s (some timestamp) ≡ ret (db', r)
        → Submitted R C E rt.eth_db s db' r
        → Sent rt s
            (C.public_to_address (K.public_of secret))
            (record rt { eth_db = db' })
            (reply_of s r)
    Sent-Submitted db' (ok done) signed sender hash run sub =
        let (block, last, held, found) =
          receipt-submit_tx R C E rt.eth_db v s timestamp small run in
        (hash, sub, (_, found, refl, ap some sender, refl, refl))
    Sent-Submitted db' (err e) signed sender hash run same = ap (λ d. record rt { eth_db = d }) same

    -- A transaction that is signed with a valid secret for a chain id that fits, and whose fields
    -- fit their types, is sent in its encoding to a server with a valid database of fewer than 2^64
    -- blocks and a lock that is not poisoned, with a clock after 1970, the crates having their
    -- laws. It is answered without a panic, and the database stays valid. Either the answer is the
    -- hash of the encoding: then there is one block more, which holds the transaction, and the
    -- receipt under that hash has the new block's number and the address of the secret's public key
    -- as the sender. Or the answer is an error, and nothing has changed.
    pub send_signed :
        K.is_secret secret ≡ true
        → ChainFits chain
        → sign R C t secret chain ≡ ret s
        → InRange s.transaction
        → (rt' : Runtime) × (reply : Result String ℕ) × (send_raw_transaction R C E
              (some timestamp)
              rt
              (record { content = rlp_bytes R s.transaction })
            ≡ (rt', ret reply))
          × IsValid R C rt'.eth_db
          × Sent rt s (C.public_to_address (K.public_of secret)) rt' reply
    send_signed valid fits signed range =
        let (s', signed', content, on_chain, sender, hash) =
          sign_total R C K t secret chain valid fits in
        let same : s' ≡ s = ret-injective (sym signed' ∙ signed) in
        let hash' =
          subst
            (λ (x : SignedTransaction). x.transaction.hash ≡ C.keccak (rlp_bytes R x.transaction))
            same hash in
        let sender' =
          subst (λ (x : SignedTransaction). x.sender ≡ C.public_to_address (K.public_of secret))
            same sender in
        let parsed =
          parse_raw-rlp_bytes R C L s range hash' (new_signed-sign R C t secret chain signed) in
        let (db', r, run, valid', sub) = submit_tx_total R C E rt.eth_db v s timestamp in
        (
          record rt { eth_db = db' },
          reply_of s r,
          send_parsed rt timestamp (rlp_bytes R s.transaction) up parsed run,
          valid',
          Sent-Submitted db' r signed sender' hash' run sub,
        )
