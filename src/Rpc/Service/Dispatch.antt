-- ===== src/Rpc/Service/Dispatch.antt =====
-- What the delegates that `#[rpc(server)]` derives do with a request: the method is found by its
-- name, its parameters are read from the JSON of the request (by code that is derived, a parameter
-- here), and the method is called.
use ethereum_prototype.Base.{◌≡◌, refl, ap, ◌∙◌, String, none, some, Result, ok, err, ret, panic}
use ethereum_prototype.Crates.JsonRpc.{JsonRpc}
use ethereum_prototype.Crates.Rlp.{Rlp}
use ethereum_prototype.Crates.Crypto.{Crypto}
use ethereum_prototype.Crates.Evm.{Evm}
use ethereum_prototype.Db.{Clock}
use ethereum_prototype.Rpc.Runtime.{Runtime, Reply}
use ethereum_prototype.Rpc.Service.{Method, Params, Answer, handle}

-- An answer, with the method that gave it.
abbrev pub Response : Type 0
Response = (m : Method) × Answer m

-- A request: the clock when it is served, what other threads do between two locks of its method,
-- the name of the method, and its parameters.
pub record Request (J : Type 0) : Type 0 where
  pub now : Clock
  pub others : Runtime → Runtime
  pub name : String
  pub params : J

abbrev pub tag_result : (m : Method) → Result String (Answer m) → Result String Response
tag_result m (ok a) = ok (m, a)
tag_result m (err e) = err e

abbrev pub tag : (m : Method) → Reply (Answer m) → Reply Response
tag m (ret r) = ret (tag_result m r)
tag m panic = panic

module _ (I : JsonRpc Method) (R : Rlp) (C : Crypto) (E : Evm) {J : Type 0}
    (parse : (m : Method) → J → Result String (Params m)) where
  call_method :
      Request J → Runtime → (m : Method) → Result String (Params m) → Runtime × Reply Response
  call_method q rt m (err e) = (rt, ret (err e))
  call_method q rt m (ok p) =
      let (rt', reply) = handle R C E q.others q.now m p rt in (rt', tag m reply)

  unfoldable pub dispatch : I.Table → Request J → Runtime → Runtime × Reply Response
  unfolding call_method
  dispatch table q rt = elim (I.find_method table q.name) [
    | none ↦ (rt, ret (err I.method_not_found))
    | some m ↦ call_method q rt m (parse m q.params)
  ]

  module _ (table : I.Table) (q : Request J) (rt : Runtime) where
    pub dispatch_unknown :
        I.find_method table q.name ≡ none → dispatch table q rt ≡ (rt, ret (err I.method_not_found))
    unfolding dispatch
    dispatch_unknown unknown = rw (unknown, dispatch) refl

    call_found :
        (m : Method)
        → I.find_method table q.name ≡ some m
        → dispatch table q rt ≡ call_method q rt m (parse m q.params)
    unfolding dispatch
    call_found m known = rw (known, dispatch) refl

    pub dispatch_refused :
        (m : Method) {e : String}
        → I.find_method table q.name ≡ some m
        → parse m q.params ≡ err e
        → dispatch table q rt ≡ (rt, ret (err e))
    unfolding call_method
    dispatch_refused m known refused = call_found m known ∙ ap (call_method q rt m) refused

    pub dispatch_called :
        (m : Method) {p : Params m}
        → I.find_method table q.name ≡ some m
        → parse m q.params ≡ ok p
        → dispatch table q rt
          ≡ ((handle R C E q.others q.now m p rt).0, tag m (handle R C E q.others q.now m p rt).1)
    unfolding call_method
    dispatch_called m known read = call_found m known ∙ ap (call_method q rt m) read
