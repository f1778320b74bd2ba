-- ===== src/Crates/Crypto/Sample.antt =====
-- Operations that have the laws of `IsLawful`, for the concrete runs. They are no cryptography: a
-- digest is a number in base 1009, cut to 256 bits, and a signature shows its secret.
use ethereum_prototype.Base.{
  ℕ, ◌+◌, ◌*◌, ◌%◌, ◌^◌, ◌<◌, ◌≡◌, refl, true, List, [], ◌∷◌, Result, ok, err, arith, ltb, ◌==◌,
  if◌then◌else◌,
}
use ethereum_prototype.Crates.Crypto.{Signature, CryptoError, invalid_signature, Crypto, IsLawful}

digest : List ℕ → ℕ
digest [] = 1
digest (b ∷ bs) = (digest bs * 1009 + b + 1) % 2 ^ 256

sign_with : ℕ → ℕ → Result CryptoError Signature
sign_with secret message =
    if ltb 0 secret
    then ok (record { r = secret; s = message; v = message % 2 })
    else err invalid_signature

recover_from : Signature → ℕ → Result CryptoError ℕ
recover_from sig message = if sig.s == message then ok sig.r else err invalid_signature

unfoldable pub sample : Crypto
unfolding digest sign_with recover_from
sample = record {
  keccak = digest;
  keccak_null_rlp = 56;
  keccak_empty_list_rlp = 57;
  sign = sign_with;
  recover = recover_from;
  public_to_address = λ public. public + 1000;
  is_low_s = λ sig. true;
}

recover-sign :
    (secret message : ℕ)
    → recover_from (record { r = secret; s = message; v = message % 2 }) message ≡ ok secret
unfolding recover_from
recover-sign secret message = ground arith

pub sample-IsLawful : IsLawful sample
unfolding sample
sample-IsLawful = record {
  is_secret = λ secret. ltb 0 secret;
  public_of = λ secret. secret;
  sign_total = λ secret message valid. (
    record { r = secret; s = message; v = message % 2 },
    rw valid refl,
    omega arith,
    ground arith,
    recover-sign secret message,
  );
}

pub is_secret-sample : (secret : ℕ) → 0 < secret → sample-IsLawful.is_secret secret ≡ true
unfolding sample-IsLawful
is_secret-sample secret h = ground arith
