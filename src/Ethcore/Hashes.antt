-- ===== src/Ethcore/Hashes.antt =====
-- The memoised hash of a header.
use ethereum_prototype.Base.{◌≡◌, refl, ap, none, some, ◌⊎◌, inl, inr, arith}
use ethereum_prototype.Crates.Rlp.{Rlp}
use ethereum_prototype.Crates.Crypto.{Crypto}
use ethereum_prototype.Ethcore.{Header, rlp, hash, compute_hash}

module _ (R : Rlp) (C : Crypto) where
  -- The header holds a memo, and it is the hash of the header's own encoding.
  abbrev pub IsFresh : Header → Type 0
  IsFresh h = h.hash ≡ some (C.keccak (rlp R h))

  hash_lem : (h : Header) → (h.hash ≡ none) ⊎ IsFresh h → hash R C h ≡ C.keccak (rlp R h)
  unfolding hash
  hash_lem h (inl empty) = ground arith
  hash_lem h (inr fresh) = ground arith

  -- For a header that has no memo, or one that agrees with its encoding, `compute_hash` returns the
  -- hash of the encoding, and leaves a header that holds this hash as its memo and has the same
  -- encoding; computing the hash of that header again returns the same and changes nothing.
  pub compute_hash-IsFresh :
      (h : Header)
      → (h.hash ≡ none) ⊎ IsFresh h
      → IsFresh (compute_hash R C h).0
        × ((compute_hash R C h).1 ≡ C.keccak (rlp R h))
        × (rlp R (compute_hash R C h).0 ≡ rlp R h)
        × (compute_hash R C (compute_hash R C h).0 ≡ compute_hash R C h)
  unfolding compute_hash rlp
  compute_hash-IsFresh h memo = (ap some (hash_lem h memo), hash_lem h memo, refl, refl)
