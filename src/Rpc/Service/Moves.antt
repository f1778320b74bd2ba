-- ===== src/Rpc/Service/Moves.antt =====
-- src/rpc.rs: what the methods of the services, by their names and with any parameters, may do to
-- the runtime.
use mathlib.Core.Path.{subst}
use ethereum_prototype.Base.{sym, String, Result, Option-cases, Result-cases, inl, inr}
use ethereum_prototype.Crates.JsonRpc.{JsonRpc}
use ethereum_prototype.Crates.Rlp.{Rlp}
use ethereum_prototype.Crates.Crypto.{Crypto}
use ethereum_prototype.Crates.Evm.{Evm}
use ethereum_prototype.Db.{Clock}
use ethereum_prototype.Rpc.Runtime.{Runtime}
use ethereum_prototype.Rpc.Eth.Steps.{Reach, here}
use ethereum_prototype.Rpc.Eth.Handlers.{handlers-Reach}
use ethereum_prototype.Rpc.Service.{
  Method, Params, handle, send_raw_transaction, call, estimate_gas,
}
use ethereum_prototype.Rpc.Service.Dispatch.{
  Request, dispatch, dispatch_unknown, dispatch_refused, dispatch_called,
}

module _ (R : Rlp) (C : Crypto) (E : Evm) where
  handle-Reach :
      (others : Runtime → Runtime) (now : Clock) (m : Method) (p : Params m) (rt : Runtime)
      → Reach R C E rt (others rt)
      → Reach R C E rt (handle R C E others now m p rt).0
  unfolding handle
  handle-Reach others now send_raw_transaction raw rt h =
      (handlers-Reach R C E others rt h).0 now raw
  handle-Reach others now call (req, number) rt h = (handlers-Reach R C E others rt h).1 req number
  handle-Reach others now estimate_gas (req, number) rt h =
      (handlers-Reach R C E others rt h).2 req number
  handle-Reach others now _ p rt h = here

  module _ (I : JsonRpc Method) {J : Type 0}
      (parse : (m : Method) → J → Result String (Params m)) where
    -- A request changes the runtime by steps alone, if other threads do so while it is served.
    pub dispatch-Reach :
        (table : I.Table) (q : Request J) (rt : Runtime)
        → Reach R C E rt (q.others rt)
        → Reach R C E rt (dispatch I R C E parse table q rt).0
    dispatch-Reach table q rt h = elim (Option-cases (I.find_method table q.name)) [
      | inl unknown ↦
          subst (λ out. Reach R C E rt out.0)
            (sym (dispatch_unknown I R C E parse table q rt unknown)) here
      | inr (m, known) ↦ elim (Result-cases (parse m q.params)) [
        | inl (bad, refused) ↦
            subst (λ out. Reach R C E rt out.0)
              (sym (dispatch_refused I R C E parse table q rt m known refused)) here
        | inr (p, read) ↦
            subst (λ out. Reach R C E rt out.0)
              (sym (dispatch_called I R C E parse table q rt m known read))
              (handle-Reach q.others q.now m p rt h)
      ]
    ]
