-- ===== src/Transaction/Signed/Signing.antt =====
-- Signing: what `sign` makes, and what `SignedTransaction::new` accepts.
use ethereum_prototype.Base.{
  ℕ, ◌+◌, ◌*◌, ◌<◌, ◌≡◌, refl, ◌↔◌, true, false, Option, none, some, ok, ret, arith,
}
use ethereum_prototype.Crates.Rlp.{Rlp}
use ethereum_prototype.Crates.Crypto.{Crypto, IsLawful, Signature}
use ethereum_prototype.Signature.{u64_mod}
use ethereum_prototype.Signature.Laws.{Fits}
use ethereum_prototype.Transaction
use ethereum_prototype.Transaction.{Transaction}
use ethereum_prototype.Transaction.Unverified.{
  UnverifiedTransaction, is_unsigned, with_signature, recover_public, signature, chain_id,
  rlp_bytes,
}
use ethereum_prototype.Transaction.Unverified.Chain.{
  signature-with_signature, unsigned-with_signature, is_unsigned-with_signature,
  chain_id-with_signature,
}
use ethereum_prototype.Transaction.Signed.{SignedTransaction, new_signed, sign}

-- Chain ids whose `v` stays below 2^64 whatever the recovery bit.
abbrev pub ChainFits : Option ℕ → Type 0
ChainFits none = Unit
ChainFits (some n) = n * 2 + 36 < u64_mod

Fits-of-ChainFits : (v : ℕ) (c : Option ℕ) → v < 2 → ChainFits c → Fits v c
Fits-of-ChainFits v none b h = omega arith
Fits-of-ChainFits v (some n) b h = omega arith

module _ (R : Rlp) (C : Crypto) where
  -- The verified form of a transaction whose public key has been recovered.
  abbrev pub verified : UnverifiedTransaction → ℕ → SignedTransaction
  verified u public = record {
    transaction = u;
    sender = C.public_to_address public;
    public = some public;
  }

  -- `SignedTransaction::new` succeeds exactly on a signed transaction from whose signature and
  -- message hash, for the chain that its `v` names, a public key is recovered. It then keeps the
  -- transaction, and the sender is the address of that key.
  pub new_signed_iff :
      (u : UnverifiedTransaction) (s : SignedTransaction)
      → (new_signed R C u ≡ ok s) ↔ (
          (is_unsigned u ≡ false)
          × ((public : ℕ) × (C.recover (signature u) (Transaction.hash R C u.unsigned (chain_id u))
                ≡ ok public)
              × (s ≡ verified u public)))
  unfolding new_signed recover_public
  new_signed_iff u s = (λ h. ground arith, λ h. ground arith)

  module _ (L : IsLawful C) (t : Transaction) (secret : ℕ) (chain : Option ℕ) where
    -- The transaction that `sign` attaches the signature to.
    recover_public-with_signature :
        (sig : Signature) (public : ℕ)
        → 0 < sig.r
        → Fits sig.v chain
        → C.recover sig (Transaction.hash R C t chain) ≡ ok public
        → recover_public R C (with_signature R C t sig chain) ≡ ok public
    unfolding recover_public
    recover_public-with_signature sig public p h e = cc (
      signature-with_signature R C t sig chain h,
      chain_id-with_signature R C t sig chain p h,
      unsigned-with_signature R C t sig chain,
    )

    -- Where the crate of signatures has its laws, signing with a valid secret for a chain id that
    -- fits never panics. It gives a transaction with the same content, for that chain, whose sender
    -- is the address of the secret's public key and whose hash is that of its own encoding.
    pub sign_total :
        L.is_secret secret ≡ true
        → ChainFits chain
        → (s : SignedTransaction) × (sign R C t secret chain ≡ ret s)
          × (s.transaction.unsigned ≡ t)
          × (chain_id s.transaction ≡ chain)
          × (s.sender ≡ C.public_to_address (L.public_of secret))
          × (s.transaction.hash ≡ C.keccak (rlp_bytes R s.transaction))
    unfolding sign
    sign_total valid fits =
        let (sig, signed, bit, pos, recovered) =
          L.sign_total secret (Transaction.hash R C t chain) valid in
        let u : UnverifiedTransaction = with_signature R C t sig chain in
        let h : Fits sig.v chain = Fits-of-ChainFits sig.v chain (omega arith) fits in
        (
          verified u (L.public_of secret),
          rw (
            signed,
            is_unsigned-with_signature R C t sig chain pos,
            recover_public-with_signature sig (L.public_of secret) pos h recovered,
          ),
          unfold with_signature in refl,
          chain_id-with_signature R C t sig chain pos h,
          refl,
          unfold with_signature in refl,
        )
