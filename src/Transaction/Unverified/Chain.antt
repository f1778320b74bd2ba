-- ===== src/Transaction/Unverified/Chain.antt =====
-- What the `v`, `r` and `s` of an `UnverifiedTransaction` say: its signature, its chain and whether
-- `verify_basic` lets it pass.
use ethereum_prototype.Base.{
  ℕ, ◌+◌, ◌*◌, ◌≤◌, ◌<◌, ◌≡◌, refl, ◌↔◌, String, Bool, true, false, Option, none, some, Result, ok,
  err, ◌>>=◌, arith, if◌then◌else◌,
}
use ethereum_prototype.Crates.Rlp.{Rlp}
use ethereum_prototype.Crates.Crypto.{Crypto, Signature}
use ethereum_prototype.Signature.{u64_mod}
use ethereum_prototype.Signature.Laws.{Fits, check-add_chain_replay_protection}
use ethereum_prototype.Transaction.{Transaction}
use ethereum_prototype.Transaction.Unverified.{
  UnverifiedTransaction, with_signature, is_unsigned, signature, standard_v, chain_id,
  check_chain_ids, verify_basic,
}

module _ (R : Rlp) (C : Crypto) (t : Transaction) (sig : Signature) (expected : Option ℕ) where
  -- The signature that was attached is read back.
  pub signature-with_signature :
      Fits sig.v expected → signature (with_signature R C t sig expected) ≡ sig
  unfolding signature standard_v with_signature
  signature-with_signature h = rw (check-add_chain_replay_protection sig.v expected h)

  pub is_unsigned-with_signature :
      0 < sig.r → is_unsigned (with_signature R C t sig expected) ≡ false
  unfolding is_unsigned with_signature
  is_unsigned-with_signature h = ground arith

  pub unsigned-with_signature : (with_signature R C t sig expected).unsigned ≡ t
  unfolding with_signature
  unsigned-with_signature = refl

-- The chain id that was attached is read back, and none if none was.
pub chain_id-with_signature :
    (R : Rlp) (C : Crypto) (t : Transaction) (sig : Signature) (expected : Option ℕ)
    → 0 < sig.r
    → Fits sig.v expected
    → chain_id (with_signature R C t sig expected) ≡ expected
unfolding chain_id with_signature
chain_id-with_signature R C t sig none p h = ground arith
chain_id-with_signature R C t sig (some n) p h = ground arith

-- For a `u64` chain id, and a signature whose `r` is not zero and whose `v` is a recovery bit, the
-- id is read back exactly when the new `v` does not overflow.
pub chain_id-with_signature_iff :
    (R : Rlp) (C : Crypto) (t : Transaction) (sig : Signature) (n : ℕ)
    → 0 < sig.r
    → sig.v ≤ 1
    → n < u64_mod
    → (chain_id (with_signature R C t sig (some n)) ≡ some n) ↔ (sig.v + 35 + n * 2 < u64_mod)
unfolding chain_id with_signature
chain_id-with_signature_iff R C t sig n p b w = (λ h. ground arith, λ h. ground arith)

-- What `verify_basic` demands of the chain id of the transaction, by the one that it is given.
abbrev pub ChainAgrees : Option ℕ → Option ℕ → Type 0
ChainAgrees none m = Unit
ChainAgrees (some n) m = m ≡ some n

check_chain_ids_iff : (n m : Option ℕ) → (check_chain_ids n m ≡ ok tt) ↔ ChainAgrees n m
unfolding check_chain_ids
check_chain_ids_iff none m = (λ h. tt, λ h. refl)
check_chain_ids_iff (some n) none = (λ h. cc, λ h. cc)
check_chain_ids_iff (some n) (some m) = (λ h. ground arith, λ h. ground arith)

abbrev verify_steps : Bool → Bool → Bool → Option ℕ → Option ℕ → Result String (Unit {0})
verify_steps unsigned low_s low n m =
    if unsigned
    then err "verify_basic: unsigned"
    else let low_check : Result String (Unit {0}) =
        if low then ok tt else err "UnverifiedTransaction.check_low_s: invalid signature" in
      do done ← if low_s then low_check else ok (tt {0}); check_chain_ids n m

verify_steps_iff :
    (unsigned low_s low : Bool) (n m : Option ℕ)
    → (verify_steps unsigned low_s low n m ≡ ok tt)
      ↔ ((unsigned ≡ false) × (low_s ≡ true → low ≡ true) × ChainAgrees n m)
verify_steps_iff true low_s low n m = (λ h. cc, λ h. cc (h.0))
verify_steps_iff false true true n m =
    (λ h. (refl, λ _. refl, (check_chain_ids_iff n m).0 h), λ h. (check_chain_ids_iff n m).1 h.2)
verify_steps_iff false true false n m = (λ h. cc, λ h. cc (h.1 refl))
verify_steps_iff false false low n m =
    (λ h. (refl, λ e. cc, (check_chain_ids_iff n m).0 h), λ h. (check_chain_ids_iff n m).1 h.2)

-- `verify_basic` accepts exactly the transactions that are signed, whose `s` is low if that is
-- asked for, and whose chain id, if they have one, is the given one.
pub verify_basic_iff :
    (C : Crypto) (u : UnverifiedTransaction) (low_s : Bool) (expected : Option ℕ)
    → (verify_basic C u low_s expected ≡ ok tt) ↔ (
        (is_unsigned u ≡ false)
        × (low_s ≡ true → C.is_low_s (signature u) ≡ true)
        × ChainAgrees (chain_id u) expected)
unfolding verify_basic
verify_basic_iff C u low_s expected =
    verify_steps_iff (is_unsigned u) low_s (C.is_low_s (signature u)) (chain_id u) expected
