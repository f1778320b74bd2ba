-- ===== src/Rpc/Eth/Handlers.antt =====
-- src/rpc.rs: the three methods that change the runtime, against the steps of Rpc/Eth/Steps.
use ethereum_prototype.Base.{◌≡◌, Option, Option-cases, Result-cases, inl, inr, arith}
use mathlib.Core.Path.{subst}
use ethereum_prototype.Crates.Rlp.{Rlp}
use ethereum_prototype.Crates.Crypto.{Crypto}
use ethereum_prototype.Crates.Evm.{Evm}
use ethereum_prototype.RpcTypes.{Bytes, CallRequest, vec_of}
use ethereum_prototype.Db.{Clock}
use ethereum_prototype.Rpc.BlockNumber.{BlockNumber}
use ethereum_prototype.Rpc.Runtime.{Runtime}
use ethereum_prototype.Rpc.Eth.{
  send_raw_transaction, call, estimate_gas, parse_raw, parse_locked, or_zero, or_nil,
}
use ethereum_prototype.Rpc.Eth.Steps.{Reach, here, next, submit, call as call_step, estimate}

module _ (R : Rlp) (C : Crypto) (E : Evm) where
  stays : {rt rt' : Runtime} → rt ≡ rt' → Reach R C E rt rt'
  stays {rt} e = subst (Reach R C E rt) e here

  send_raw_transaction-Reach :
      (rt : Runtime) (now : Clock) (raw : Bytes)
      → Reach R C E rt (send_raw_transaction R C E now rt raw).0
  unfolding send_raw_transaction
  send_raw_transaction-Reach rt now raw = elim (Result-cases (parse_raw R C raw)) [
    | inl (e, failed) ↦ stays (ground arith)
    | inr (signed, parsed) ↦ next here (submit now signed (ground arith))
  ]

  module _ (others : Runtime → Runtime) (rt : Runtime) (reach : Reach R C E rt (others rt))
      (req : CallRequest) (number : Option BlockNumber) where
    call-Reach : Reach R C E rt (call others E rt req number).0
    unfolding call
    call-Reach = elim (Option-cases req.to) [
      | inl missing ↦ stays (ground arith)
      | inr (to, given) ↦ elim (Result-cases (parse_locked rt number "parse number failed")) [
        | inl (e, failed) ↦ stays (ground arith)
        | inr (n, parsed) ↦
            next reach
              (call_step n (or_zero req.from) to (or_nil (vec_of req.call_data)) (ground arith))
      ]
    ]

    estimate_gas-Reach : Reach R C E rt (estimate_gas others E rt req number).0
    unfolding estimate_gas
    estimate_gas-Reach = elim (Result-cases (parse_locked rt number "parse number failed")) [
      | inl (e, failed) ↦ stays (ground arith)
      | inr (n, parsed) ↦ next reach (
          estimate n (or_zero req.from) (or_zero req.value) req.to (or_nil (vec_of req.call_data))
            (ground arith))
    ]

  -- Every method that changes the runtime changes it by steps of `Step`, if other threads do so too
  -- between its two locks: `eth_sendRawTransaction`, `eth_call` and `eth_estimateGas`, on every
  -- path.
  pub handlers-Reach :
      (others : Runtime → Runtime) (rt : Runtime)
      → Reach R C E rt (others rt)
      → ((now : Clock) (raw : Bytes) → Reach R C E rt (send_raw_transaction R C E now rt raw).0)
        × ((req : CallRequest) (number : Option BlockNumber)
            → Reach R C E rt (call others E rt req number).0)
        × ((req : CallRequest) (number : Option BlockNumber)
            → Reach R C E rt (estimate_gas others E rt req number).0)
  handlers-Reach others rt reach = (
    send_raw_transaction-Reach rt,
    call-Reach others rt reach,
    estimate_gas-Reach others rt reach,
  )
