-- ===== src/Main/Lasting.antt =====
-- src/main.rs: the server through rows of requests of any kind, those that panic included.
use ethereum_prototype.Base.{◌+◌, ◌%◌, ◌≡◌, String, List, [], ◌∷◌, length, Result}
use ethereum_prototype.Crates.JsonRpc.{JsonRpc}
use ethereum_prototype.Crates.Rlp.{Rlp}
use ethereum_prototype.Crates.Crypto.{Crypto}
use ethereum_prototype.Crates.Evm.{Evm}
use ethereum_prototype.Middleware.{usize_mod}
use ethereum_prototype.Rpc.Runtime.{Runtime}
use ethereum_prototype.Rpc.Eth.Steps.{Reach}
use ethereum_prototype.Rpc.Service.{Method, Params}
use ethereum_prototype.Rpc.Service.Dispatch.{Request}
use ethereum_prototype.Main.{Server, serve_all}

module _ (I : JsonRpc Method) (R : Rlp) (C : Crypto) (E : Evm) {J : Type 0}
    (parse : (m : Method) → J → Result String (Params m)) where
  -- Between two locks of a method other threads do nothing to the runtime but serve requests.
  abbrev pub OthersServe : List (Request J) → Type 0
  OthersServe [] = Unit
  OthersServe (q ∷ qs) = ((rt : Runtime) → Reach R C E rt (q.others rt)) × OthersServe qs

  -- What a row of requests leaves of a server, and how many replies it has.
  record Passed (s : Server I) (qs : List (Request J)) : Type 0 where
    pub moved : Reach R C E s.runtime (serve_all I R C E parse s qs).0.runtime
    pub replied : length (serve_all I R C E parse s qs).1 ≡ length qs
    pub counted :
        (serve_all I R C E parse s qs).0.middleware.count % usize_mod
        ≡ (s.middleware.count + length qs) % usize_mod
    pub same_table : (serve_all I R C E parse s qs).0.table ≡ s.table
