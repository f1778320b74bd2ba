-- ===== src/Rpc/Eth/Accepting.antt =====
-- src/rpc.rs, `send_raw_transaction`, on arbitrary bytes.
use ethereum_prototype.Base.{
  ℕ, ◌≡◌, refl, ap, ◌∙◌, String, false, some, List, Result, ok, err, ret, inl, inr, Result-cases,
  arith,
}
use ethereum_prototype.Crates.Rlp.{Rlp}
use ethereum_prototype.Crates.Crypto.{Crypto}
use ethereum_prototype.Crates.Evm.{Evm}
use ethereum_prototype.Transaction
use ethereum_prototype.Transaction.Unverified.{
  UnverifiedTransaction, decode, is_unsigned, signature, chain_id,
}
use ethereum_prototype.Transaction.Unverified.Codec.{hash-decode}
use ethereum_prototype.Transaction.Signed.{SignedTransaction, new_signed}
use ethereum_prototype.Transaction.Signed.Signing.{verified, new_signed_iff}
use ethereum_prototype.Db.{HashMapEthDb}
use ethereum_prototype.Db.Valid.{IsValid}
use ethereum_prototype.Db.Submission.{submit_tx_total, Submitted, Extends}
use ethereum_prototype.Rpc.Runtime.{Runtime}
use ethereum_prototype.Rpc.Eth.{parse_raw, send_raw_transaction}
use ethereum_prototype.Rpc.Eth.Sending.{reply_of, send_parsed}

module _ (R : Rlp) (C : Crypto) where
  -- The bytes are the encoding of a signed transaction, from which the key of `s` was recovered.
  pub record IsFrom (raw : List ℕ) (s : SignedTransaction) : Type 0 where
    pub u : UnverifiedTransaction
    pub public : ℕ
    pub decoded : decode R C raw ≡ ok u
    pub is_signed : is_unsigned u ≡ false
    pub recovered :
        C.recover (signature u) (Transaction.hash R C u.unsigned (chain_id u)) ≡ ok public
    pub same : s ≡ verified R C u public

  new_signed-of-parse_raw :
      (raw : List ℕ) (u : UnverifiedTransaction) {s : SignedTransaction}
      → decode R C raw ≡ ok u
      → parse_raw R C (record { content = raw }) ≡ ok s
      → new_signed R C u ≡ ok s
  unfolding parse_raw
  new_signed-of-parse_raw raw u d h = ground (arith, Result-cases (new_signed R C u))

  decode-ok-of-parse_raw :
      (raw : List ℕ) {s : SignedTransaction}
      → parse_raw R C (record { content = raw }) ≡ ok s
      → (u : UnverifiedTransaction) × (decode R C raw ≡ ok u)
  unfolding parse_raw
  decode-ok-of-parse_raw raw h = elim (Result-cases (decode R C raw)) [
    | inl (e, failed) ↦ absurd (ground arith)
    | inr d ↦ d
  ]

  parse_raw-IsFrom :
      (raw : List ℕ) {s : SignedTransaction}
      → parse_raw R C (record { content = raw }) ≡ ok s
      → IsFrom raw s
  parse_raw-IsFrom raw {s} h =
      let (u, d) = decode-ok-of-parse_raw raw h in
      let (is_signed, (public, recovered, same)) =
        (new_signed_iff R C u s).0 (new_signed-of-parse_raw raw u d h) in
      record {
        u = u;
        public = public;
        decoded = d;
        is_signed = is_signed;
        recovered = recovered;
        same = same;
      }

  IsFrom-hash :
      {raw : List ℕ} {s : SignedTransaction} → IsFrom raw s → s.transaction.hash ≡ C.keccak raw
  IsFrom-hash {raw} f =
      ap (λ (x : SignedTransaction). x.transaction.hash) f.same ∙ hash-decode R C raw f.decoded

module _ (R : Rlp) (C : Crypto) (E : Evm) where
  -- What the server replies to the bytes and leaves: a hash and one block more with the transaction
  -- that they encode, or an error and what was there before.
  abbrev pub Accepted : Runtime → List ℕ → Runtime → Result String ℕ → Type 0
  Accepted rt raw rt' (ok hash) =
      (hash ≡ C.keccak raw)
      × (s : SignedTransaction) × IsFrom R C raw s
      × Extends R C E rt.eth_db s rt'.eth_db
  Accepted rt raw rt' (err message) = rt' ≡ rt

  Submitted-Accepted :
      (rt : Runtime) (raw : List ℕ) {s : SignedTransaction}
      → IsFrom R C raw s
      → (db' : HashMapEthDb) (r : Result String (Unit {0})) → Submitted R C E rt.eth_db s db' r
      → Accepted rt raw (record rt { eth_db = db' }) (reply_of s r)
  Submitted-Accepted rt raw {s} f db' (ok done) sub = (IsFrom-hash R C f, s, f, sub)
  Submitted-Accepted rt raw f db' (err e) same = ap (λ d. record rt { eth_db = d }) same

  rejected :
      (rt : Runtime) (timestamp : ℕ) (raw : List ℕ) {e : String}
      → parse_raw R C (record { content = raw }) ≡ err e
      → send_raw_transaction R C E (some timestamp) rt (record { content = raw })
        ≡ (rt, ret (err e))
  unfolding send_raw_transaction
  rejected rt timestamp raw h = ground arith

  -- Whatever bytes are sent to a server with a valid database and a lock that is not poisoned, with
  -- a clock after 1970: they are answered without a panic and the database stays valid. If the
  -- answer is a hash, it is that of the bytes, which encode a signed transaction from which a key
  -- is recovered, and one block more holds it, sent by the address of that key. If the answer is an
  -- error, nothing has changed.
  pub send_raw_total :
      (rt : Runtime)
      → IsValid R C rt.eth_db
      → rt.poisoned ≡ false
      → (timestamp : ℕ) (raw : List ℕ)
      → (rt' : Runtime) × (reply : Result String ℕ) × (send_raw_transaction R C E
            (some timestamp)
            rt
            (record { content = raw })
          ≡ (rt', ret reply))
        × IsValid R C rt'.eth_db
        × Accepted rt raw rt' reply
  send_raw_total rt v up timestamp raw =
      elim (Result-cases (parse_raw R C (record { content = raw }))) [
        | inl (e, failed) ↦ (rt, err e, rejected rt timestamp raw failed, v, refl)
        | inr (s, parsed) ↦
            let (db', r, run, valid, sub) = submit_tx_total R C E rt.eth_db v s timestamp in
            (
              record rt { eth_db = db' },
              reply_of s r,
              send_parsed R C E rt timestamp raw up parsed run,
              valid,
              Submitted-Accepted rt raw (parse_raw-IsFrom R C raw parsed) db' r sub,
            )
      ]
