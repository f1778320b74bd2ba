-- ===== src/Main.antt =====
-- src/main.rs, `main`: the state that the server starts with, and how it serves a request.
pub mod Started
pub mod Receipts
pub mod Serving
pub mod Lasting
pub mod Requests
pub mod Wallet
use ethereum_prototype.Base.{Outcome, and_then, ret, false, List, [], ◌∷◌, Result, String}
use ethereum_prototype.Crates.JsonRpc.{JsonRpc}
use ethereum_prototype.Crates.Rlp.{Rlp}
use ethereum_prototype.Crates.Crypto.{Crypto}
use ethereum_prototype.Crates.Evm.{Evm}
use ethereum_prototype.Db.{Clock, new}
use ethereum_prototype.Middleware.{MyMiddleware, default_meta, on_request}
use ethereum_prototype.Rpc.Runtime.{Runtime, Reply}
use ethereum_prototype.Rpc.Service.{Method, Params}
use ethereum_prototype.Rpc.Service.Table.{handlers}
use ethereum_prototype.Rpc.Service.Dispatch.{Request, Response, dispatch}

-- A new database under a lock that nobody has poisoned.
unfoldable pub start : Rlp → Crypto → Clock → Outcome Runtime
start R C now = and_then (new R C now) λ db. ret (record { eth_db = db; poisoned = false })

-- The handler, with its middleware and its table of methods, over the runtime that they share.
pub record Server (I : JsonRpc Method) : Type 0 where
  pub middleware : MyMiddleware
  pub table : I.Table
  pub runtime : Runtime

unfoldable pub start_server : (I : JsonRpc Method) → Rlp → Crypto → Clock → Outcome (Server I)
unfolding start handlers
start_server I R C now = and_then (start R C now) λ runtime.
    ret (record { middleware = record { count = 0 }; table = handlers I; runtime = runtime })

module _ (I : JsonRpc Method) (R : Rlp) (C : Crypto) (E : Evm) {J : Type 0}
    (parse : (m : Method) → J → Result String (Params m)) where
  unfoldable pub serve : Server I → Request J → Server I × Reply Response
  unfolding on_request dispatch
  serve s q =
      let (middleware, (runtime, reply)) =
        on_request s.middleware q default_meta
          λ request meta. dispatch I R C E parse s.table request s.runtime in
      (record s { middleware = middleware; runtime = runtime }, reply)

  -- Requests one after the other.
  unfoldable pub serve_all : Server I → List (Request J) → Server I × List (Reply Response)
  unfolding serve
  serve_all s [] = (s, [])
  serve_all s (q ∷ qs) =
      let (s', reply) = serve s q in let (s'', replies) = serve_all s' qs in (s'', reply ∷ replies)
