-- ===== src/Transaction/Unverified.antt =====
-- src/transaction.rs: `UnverifiedTransaction`.
pub mod Chain
pub mod Codec
use ethereum_prototype.Base.{
  ℕ, ◌-◌, ◌/◌, String, Bool, ◌&&◌, Option, none, some, List, [], Result, ok, err, ◌>>=◌, ◌==◌, leb,
  if◌then◌else◌,
}
use ethereum_prototype.Crates.Rlp.{
  Rlp, RlpStream, begin_list, ◌◃◌, uint, DecoderError, rlp_incorrect_list_len,
}
use ethereum_prototype.Crates.Crypto.{Crypto, CryptoError, Signature}
use ethereum_prototype.Signature.{add_chain_replay_protection, check_replay_protection}
use ethereum_prototype.Transaction
use ethereum_prototype.Transaction.{Transaction, Action, create, call, decode_action, append_fields}

pub record UnverifiedTransaction : Type 0 where
  pub unsigned : Transaction
  pub v : ℕ
  pub r : ℕ
  pub s : ℕ
  pub hash : ℕ

module _ (R : Rlp) (C : Crypto) where
  -- `d.val_at(i)`, at the type that `as_val` reads
  val_at {ℓ} : {A : Type ℓ} → (List ℕ → Result DecoderError A) → List ℕ → ℕ → Result DecoderError A
  val_at as_val d i = do x ← R.at d i; as_val x

  unfoldable pub decode : List ℕ → Result DecoderError UnverifiedTransaction
  unfolding val_at decode_action
  decode d = do
    n ← R.item_count d
    if n == 9
        then (do
          nonce ← val_at (R.as_uint 256) d 0
          gas_price ← val_at (R.as_uint 256) d 1
          gas ← val_at (R.as_uint 256) d 2
          action ← val_at (decode_action R) d 3
          value ← val_at (R.as_uint 256) d 4
          tx_data ← val_at R.as_bytes d 5
          v ← val_at (R.as_uint 64) d 6
          r ← val_at (R.as_uint 256) d 7
          s ← val_at (R.as_uint 256) d 8
          ok (record {
            unsigned = record {
              nonce = nonce;
              gas_price = gas_price;
              gas = gas;
              action = action;
              value = value;
              tx_data = tx_data;
            };
            v = v;
            r = r;
            s = s;
            hash = C.keccak d;
          }))
        else err rlp_incorrect_list_len

-- Also `rlp_append`, of this type and of `SignedTransaction`.
unfoldable pub rlp_append_sealed_transaction : UnverifiedTransaction → RlpStream → RlpStream
unfolding append_fields begin_list ◌◃◌
rlp_append_sealed_transaction u s =
    append_fields (begin_list s 9) u.unsigned ◃ uint u.v ◃ uint u.r ◃ uint u.s

unfoldable pub rlp_bytes : Rlp → UnverifiedTransaction → List ℕ
unfolding rlp_append_sealed_transaction
rlp_bytes R u = R.out (rlp_append_sealed_transaction u [])

unfoldable pub compute_hash : Rlp → Crypto → UnverifiedTransaction → UnverifiedTransaction
unfolding rlp_bytes
compute_hash R C u = record u { hash = C.keccak (rlp_bytes R u) }

unfoldable pub is_unsigned : UnverifiedTransaction → Bool
is_unsigned u = u.r == 0 && u.s == 0

abbrev pub receiver_of : Action → Option ℕ
receiver_of create = none
receiver_of (call receiver) = some receiver

unfoldable pub receiver : UnverifiedTransaction → Option ℕ
receiver u = receiver_of u.unsigned.action

unfoldable pub standard_v : UnverifiedTransaction → ℕ
unfolding check_replay_protection
standard_v u = check_replay_protection u.v

unfoldable pub original_v : UnverifiedTransaction → ℕ
original_v u = u.v

unfoldable pub chain_id : UnverifiedTransaction → Option ℕ
unfolding is_unsigned
chain_id u = if is_unsigned u then some u.v else if leb 35 u.v then some ((u.v - 35) / 2) else none

unfoldable pub signature : UnverifiedTransaction → Signature
signature u = record { r = u.r; s = u.s; v = standard_v u }

unfoldable pub check_low_s : Crypto → UnverifiedTransaction → Result String (Unit {0})
check_low_s C u =
    if C.is_low_s (signature u)
    then ok tt
    else err "UnverifiedTransaction.check_low_s: invalid signature"

unfoldable pub recover_public : Rlp → Crypto → UnverifiedTransaction → Result CryptoError ℕ
recover_public R C u = C.recover (signature u) (Transaction.hash R C u.unsigned (chain_id u))

-- The `match` on the two chain ids at the end of `verify_basic`.
check_chain_ids : Option ℕ → Option ℕ → Result String (Unit {0})
check_chain_ids none m = ok tt
check_chain_ids (some n) none = err "verify_basic: invalid chain id"
check_chain_ids (some n) (some m) = if n == m then ok tt else err "verify_basic: invalid chain id"

unfoldable pub verify_basic :
    Crypto → UnverifiedTransaction → Bool → Option ℕ → Result String (Unit {0})
unfolding is_unsigned check_low_s check_chain_ids
verify_basic C u low_s expected =
    if is_unsigned u
    then err "verify_basic: unsigned"
    else do done ← if low_s then check_low_s C u else ok tt; check_chain_ids (chain_id u) expected

-- `Transaction::with_signature`
unfoldable pub with_signature :
    Rlp → Crypto → Transaction → Signature → Option ℕ → UnverifiedTransaction
unfolding compute_hash add_chain_replay_protection
with_signature R C t sig chain_id = compute_hash R C (record {
  unsigned = t;
  r = sig.r;
  s = sig.s;
  v = add_chain_replay_protection sig.v chain_id;
  hash = 0;
})
