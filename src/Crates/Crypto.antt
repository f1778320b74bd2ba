-- ===== src/Crates/Crypto.antt =====
-- The crates `keccak-hash` and `parity-crypto` (its module `publickey`) as the program calls them.
-- Hashes, keys and addresses are read as the big-endian number that their bytes write.
pub mod Sample
use ethereum_prototype.Base.{ℕ, ◌≤◌, ◌<◌, ◌≡◌, Bool, List, Result, ok}

-- `Signature`: r and s, 32 bytes each, and v, one byte.
pub record Signature : Type 0 where
  pub r : ℕ
  pub s : ℕ
  pub v : ℕ

-- `publickey::Error`: the error that the program names, and the others by number.
pub data CryptoError : Type 0 where
  invalid_signature : CryptoError
  other : ℕ → CryptoError

pub record Crypto : Type 0 where
  pub keccak : List ℕ → ℕ
  -- KECCAK_NULL_RLP and KECCAK_EMPTY_LIST_RLP
  pub keccak_null_rlp : ℕ
  pub keccak_empty_list_rlp : ℕ
  pub sign : ℕ → ℕ → Result CryptoError Signature
  pub recover : Signature → ℕ → Result CryptoError ℕ
  pub public_to_address : ℕ → ℕ
  pub is_low_s : Signature → Bool

-- Signing with a valid secret succeeds, its `v` is a recovery bit, `r` is not zero, and recovery
-- from the signature and the message returns the public key of the secret.
pub record IsLawful (C : Crypto) : Type 0 where
  pub is_secret : ℕ → Bool
  pub public_of : ℕ → ℕ
  pub sign_total :
      (secret message : ℕ)
      → is_secret secret ≡ Bool.true
      → (sig : Signature) × (C.sign secret message ≡ ok sig)
        × (sig.v ≤ 1)
        × (0 < sig.r)
        × (C.recover sig message ≡ ok (public_of secret))
