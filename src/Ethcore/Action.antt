-- ===== src/Ethcore/Action.antt =====
-- src/ethcore.rs: its own `Action`, a second copy of the one in src/transaction.rs.
use ethereum_prototype.Base.{ℕ, ◌≡◌, List, [], Result, ok, err, ◌>>=◌, if◌then◌else◌, arith}
use ethereum_prototype.Crates.Rlp.{
  Rlp, RlpStream, append_internal, bytes, fixed, DecoderError, rlp_expected_to_be_data,
}
use ethereum_prototype.Transaction

pub data Action : Type 0 where
  create : Action
  call : ℕ → Action

abbrev pub default_action : Action
default_action = create

unfoldable pub rlp_append : RlpStream → Action → RlpStream
rlp_append s create = append_internal s (bytes [])
rlp_append s (call addr) = append_internal s (fixed 20 addr)

unfoldable pub decode : Rlp → List ℕ → Result DecoderError Action
decode R rlp =
    if R.is_empty rlp
    then (if R.is_data rlp then ok create else err rlp_expected_to_be_data)
    else do address ← R.as_fixed 20 rlp; ok (call address)

-- The action of src/transaction.rs that an action stands for.
abbrev pub same : Action → Transaction.Action
same create = Transaction.create
same (call address) = Transaction.call address

abbrev pub same_result : Result DecoderError Action → Result DecoderError Transaction.Action
same_result (ok a) = ok (same a)
same_result (err e) = err e

-- The two copies of `Action` are read from the same bytes, with the same errors, and written as the
-- same bytes.
pub decode-same :
    (R : Rlp)
    → ((d : List ℕ) → same_result (decode R d) ≡ Transaction.decode_action R d)
      × ((s : RlpStream) (a : Action) → rlp_append s a ≡ Transaction.append_action s (same a))
unfolding decode rlp_append Transaction.decode_action Transaction.append_action
decode-same R = (λ d. ground arith, λ s a. ground arith)
