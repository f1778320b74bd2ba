-- ===== src/Tests/Transactions.antt =====
-- Transactions: signatures, encodings and texts.
use ethereum_prototype.Base.{
  ℕ, ◌+◌, ◌*◌, ◌<◌, ◌≡◌, refl, ◌↔◌, true, false, none, some, [], ◌∷◌, ok, err, ret, arith,
}
use ethereum_prototype.Crates.Rlp.{rlp_incorrect_list_len}
use ethereum_prototype.Crates.Rlp.Sample as RlpSample
use ethereum_prototype.Crates.Crypto.{Crypto, invalid_signature}
use ethereum_prototype.Crates.Crypto.Sample as CryptoSample
use ethereum_prototype.Crates.Hex.Sample as HexSample
use ethereum_prototype.Signature.{u64_mod}
use ethereum_prototype.Transaction
use ethereum_prototype.Transaction.Unverified.{
  chain_id, is_unsigned, signature as read_signature, with_signature, verify_basic, decode,
  rlp_bytes, compute_hash,
}
use ethereum_prototype.Transaction.Unverified.Chain.{
  ChainAgrees, chain_id-with_signature_iff, verify_basic_iff,
}
use ethereum_prototype.Transaction.Unverified.Codec.{InRange, decode-rlp_bytes, decode-wrong_length}
use ethereum_prototype.Transaction.Signed.{SignedTransaction, sign, new_signed}
use ethereum_prototype.Transaction.Signed.Signing.{sign_total, new_signed_iff, verified}
use ethereum_prototype.Transaction.Pending.{LocalizedTransaction, sender}
use ethereum_prototype.RpcTypes.Text.{serialize, visit_str, visit_str-serialize}
use ethereum_prototype.Rpc.BlockNumber.{num}
use ethereum_prototype.Rpc.Visitor
use ethereum_prototype.Rpc.Visitor.{codes}
use ethereum_prototype.Rpc.Visitor.Numerals.{IsNumeral, visit_str_iff}
use ethereum_prototype.Tests.Fixtures.{codec, crypto, transfer, secret, unverified, signed}

chain_id-with_signature_iff_example :
    (chain_id (with_signature codec crypto transfer (record { r = 1; s = 2; v = 1 }) (some 7))
      ≡ some 7)
    ↔ (1 + 35 + 7 * 2 < u64_mod)
chain_id-with_signature_iff_example =
    chain_id-with_signature_iff codec crypto transfer (record { r = 1; s = 2; v = 1 }) 7
      (omega arith) (omega arith) (omega arith)

verify_basic_iff_example : (verify_basic crypto unverified true (some 7) ≡ ok tt) ↔ (
    (is_unsigned unverified ≡ false)
    × (true ≡ true → crypto.is_low_s (read_signature unverified) ≡ true)
    × ChainAgrees (chain_id unverified) (some 7))
verify_basic_iff_example = verify_basic_iff crypto unverified true (some 7)

pub unverified-InRange : InRange unverified
unfolding with_signature CryptoSample.sample RlpSample.sample Transaction.hash
unverified-InRange = record {
  nonce = omega arith;
  gas_price = omega arith;
  gas = omega arith;
  action = omega arith;
  value = omega arith;
  v = omega arith;
  r = omega arith;
  s = omega arith;
}

decode-rlp_bytes_example :
    decode codec crypto (rlp_bytes codec unverified) ≡ ok (compute_hash codec crypto unverified)
decode-rlp_bytes_example =
    decode-rlp_bytes codec RlpSample.sample-IsLawful crypto unverified unverified-InRange

decode-wrong_length_example : decode codec crypto (3 ∷ 8 ∷ []) ≡ err rlp_incorrect_list_len
decode-wrong_length_example =
    decode-wrong_length codec crypto (3 ∷ 8 ∷ []) 8 (unfold RlpSample.sample in refl) (omega arith)

new_signed_iff_example : (new_signed codec crypto unverified ≡ ok signed) ↔ (
    (is_unsigned unverified ≡ false)
    × ((public : ℕ) × (crypto.recover
            (read_signature unverified)
            (Transaction.hash codec crypto unverified.unsigned (chain_id unverified))
          ≡ ok public)
        × (signed ≡ verified codec crypto unverified public)))
new_signed_iff_example = new_signed_iff codec crypto unverified signed

sign_total_example :
    (s : SignedTransaction) × (sign codec crypto transfer secret (some 7) ≡ ret s)
    × (s.transaction.unsigned ≡ transfer)
    × (chain_id s.transaction ≡ some 7)
    × (s.sender ≡ crypto.public_to_address (CryptoSample.sample-IsLawful.public_of secret))
    × (s.transaction.hash ≡ crypto.keccak (rlp_bytes codec s.transaction))
sign_total_example =
    sign_total codec crypto CryptoSample.sample-IsLawful transfer secret (some 7)
      (CryptoSample.is_secret-sample secret (omega arith)) (omega arith)

-- A transaction in a block, whose sender has not been asked for.
abbrev localized : LocalizedTransaction
localized = record {
  signed = unverified;
  block_number = 1;
  block_hash = 5;
  transaction_index = 0;
  cached_sender = none;
}

-- Keys that no signature belongs to.
abbrev no_keys : Crypto
no_keys = record crypto { recover = λ sig m. err invalid_signature }

visit_str-serialize_example :
    visit_str HexSample.sample (serialize HexSample.sample (record { content = 1 ∷ 200 ∷ [] }))
    ≡ ok (record { content = 1 ∷ 200 ∷ [] })
visit_str-serialize_example =
    visit_str-serialize HexSample.sample HexSample.sample-IsLawful
      (record { content = 1 ∷ 200 ∷ [] })

visit_str_iff_example : (Visitor.visit_str "0x1f" ≡ ok (num 31)) ↔ IsNumeral (codes "0x1f") 31
visit_str_iff_example = visit_str_iff "0x1f" 31
