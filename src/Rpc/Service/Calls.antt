-- ===== src/Rpc/Service/Calls.antt =====
-- src/rpc.rs, `call`: what `eth_call` answers for a block that there is.
use ethereum_prototype.Base.{ℕ, ◌≡◌, refl, false, String, Option, List, Result, ok}
use ethereum_prototype.Crates.Rlp.{Rlp}
use ethereum_prototype.Crates.Crypto.{Crypto}
use ethereum_prototype.Crates.Evm.{Evm, ExitReason, succeed}
use ethereum_prototype.Backend
use ethereum_prototype.RpcTypes.{Bytes}
use ethereum_prototype.Rpc.BlockNumber.{BlockNumber, parse_number}
use ethereum_prototype.Rpc.Runtime.{Runtime, rpc_err}
use ethereum_prototype.Rpc.Eth
use ethereum_prototype.Rpc.Eth.{parse_locked}
use ethereum_prototype.Rpc.Service.Healthy.{Healthy}

-- The answer that the result of a run stands for: its output after a success, or an error.
abbrev pub answer_of : ExitReason × List ℕ × ℕ → Result String Bytes
answer_of (reason, output, gas) = elim reason [
  | succeed s ↦ ok (record { content = output })
  | _ ↦ rpc_err "call failed"
]

pub parse_locked_ok :
    (rt : Runtime) (number : Option BlockNumber) (message : String) {n : ℕ}
    → rt.poisoned ≡ false
    → parse_number number rt.eth_db ≡ ok n
    → parse_locked rt number message ≡ ok n
unfolding parse_locked
parse_locked_ok rt number message up e = rw (up, e, parse_locked) refl
