-- ===== src/Main/Serving.antt =====
-- src/main.rs: the server from its start through a row of requests.
use mathlib.Core.Path.{subst}
use ethereum_prototype.Base.{
  ℕ, ◌+◌, ◌%◌, ◌≤◌, ◌≡◌, refl, sym, ap, inl, inr, false, String, some, List, [], ◌∷◌, map, length,
  Result, ok, Outcome, ret, panic, Option-cases, Result-cases, arith,
}
use ethereum_prototype.Crates.JsonRpc.{JsonRpc}
use ethereum_prototype.Crates.Rlp.{Rlp}
use ethereum_prototype.Crates.Crypto.{Crypto}
use ethereum_prototype.Crates.Evm.{Evm}
use ethereum_prototype.Signature.{u64_mod}
use ethereum_prototype.Db.Valid.{IsValid}
use ethereum_prototype.Db.Valid.Init.{new-IsValid}
use ethereum_prototype.Middleware.{usize_mod}
use ethereum_prototype.Rpc.Service.{Method, Params}
use ethereum_prototype.Rpc.Service.Table.{handlers}
use ethereum_prototype.Rpc.Service.Dispatch.{
  Request, Response, tag, tag_result, dispatch, dispatch_unknown, dispatch_refused, dispatch_called,
}
use ethereum_prototype.Rpc.Service.Healthy.{Healthy, Healthy-refl, Healthy-trans, Answered}
use ethereum_prototype.Rpc.Service.Answers.{IsServable, handle-Answered}
use ethereum_prototype.Main.{start, Server, start_server, serve, serve_all}

module _ (I : JsonRpc Method) (R : Rlp) (C : Crypto) (E : Evm) {J : Type 0}
    (parse : (m : Method) → J → Result String (Params m)) where
  -- What a request needs to be answered when its turn comes: the chain has at most 2^64 blocks,
  -- other threads leave a healthy server healthy, and what the method that is called needs.
  pub record CanServe (s : Server I) (q : Request J) : Type 0 where
    pub small : length s.runtime.eth_db.blocks ≤ u64_mod
    pub others : Healthy R C E s.runtime (q.others s.runtime)
    pub servable :
        (m : Method) (p : Params m)
        → I.find_method s.table q.name ≡ some m
        → parse m q.params ≡ ok p
        → IsServable s.runtime.eth_db q.now m p

  abbrev pub CanServeAll : Server I → List (Request J) → Type 0
  CanServeAll s [] = Unit
  CanServeAll s (q ∷ qs) = CanServe s q × CanServeAll (serve I R C E parse s q).0 qs

  dispatch-Answered :
      (s : Server I) (q : Request J)
      → s.runtime.poisoned ≡ false
      → IsValid R C s.runtime.eth_db
      → CanServe s q
      → Answered R C E s.runtime (dispatch I R C E parse s.table q s.runtime)
  dispatch-Answered s q up v can = elim (Option-cases (I.find_method s.table q.name)) [
    | inl unknown ↦
        subst (Answered R C E s.runtime)
          (sym (dispatch_unknown I R C E parse s.table q s.runtime unknown))
          (_, refl, Healthy-refl R C E up v)
    | inr (m, known) ↦ elim (Result-cases (parse m q.params)) [
      | inl (bad, refused) ↦
          subst (Answered R C E s.runtime)
            (sym (dispatch_refused I R C E parse s.table q s.runtime m known refused))
            (_, refl, Healthy-refl R C E up v)
      | inr (p, read) ↦
          let (reply, given, healthy) =
            handle-Answered R C E s.runtime up v can.small q.others can.others q.now m p
              (can.servable m p known read) in
          subst (Answered R C E s.runtime)
            (sym (dispatch_called I R C E parse s.table q s.runtime m known read))
            (tag_result m reply, ap (tag m) given, healthy)
    ]
  ]

  -- What a row of requests leaves of a healthy server, and what it is answered with.
  pub record Serviced (s : Server I) (qs : List (Request J)) : Type 0 where
    pub results : List (Result String Response)
    pub answered : (serve_all I R C E parse s qs).1 ≡ map (λ r. ret r) results
    pub each : length results ≡ length qs
    pub healthy : Healthy R C E s.runtime (serve_all I R C E parse s qs).0.runtime
    pub counted :
        (serve_all I R C E parse s qs).0.middleware.count % usize_mod
        ≡ (s.middleware.count + length qs) % usize_mod
    pub same_table : (serve_all I R C E parse s qs).0.table ≡ s.table

  -- Whatever a healthy server is asked, one request after the other: if each of them can be served
  -- when its turn comes, each is answered, with a result or an error, the server stays healthy, and
  -- the middleware has counted the requests.
  pub serve_all-Serviced :
      (s : Server I) (qs : List (Request J))
      → s.runtime.poisoned ≡ false
      → IsValid R C s.runtime.eth_db
      → CanServeAll s qs
      → Serviced s qs
  unfolding serve_all serve
  serve_all-Serviced s [] up v can = record {
    results = [];
    answered = refl;
    each = refl;
    healthy = Healthy-refl R C E up v;
    counted = omega arith;
    same_table = refl;
  }
  serve_all-Serviced s (q ∷ qs) up v can =
      let (reply, given, healthy) = dispatch-Answered s q up v can.0 in
      let ih =
        serve_all-Serviced (serve I R C E parse s q).0 qs healthy.up healthy.kept.valid can.1 in
      record {
        results = reply ∷ ih.results;
        answered = cc (given, ih.answered);
        each = omega (arith, ih.each);
        healthy = Healthy-trans R C E healthy ih.healthy;
        counted = omega (arith, ih.counted);
        same_table = ih.same_table;
      }

  start_server_lem :
      (timestamp : ℕ)
      → (s : Server I) × (start_server I R C (some timestamp) ≡ ret s)
        × (s.table ≡ handlers I)
        × (s.middleware.count ≡ 0)
        × (s.runtime.poisoned ≡ false)
        × IsValid R C s.runtime.eth_db
  unfolding start_server start
  start_server_lem timestamp =
      let (db, made, v, blocks, accounts) = new-IsValid R C timestamp in
      (
        record {
          middleware = record { count = 0 };
          table = handlers I;
          runtime = record { eth_db = db; poisoned = false };
        },
        rw made refl,
        refl,
        refl,
        refl,
        v,
      )

  -- What the requests of a run need that begins with the start of the server.
  abbrev pub CanRun : Outcome (Server I) → List (Request J) → Type 0
  CanRun panic qs = Unit
  CanRun (ret s) qs = CanServeAll s qs

  -- With a clock after 1970 the server starts, with all its methods in the table. It then answers
  -- every row of requests, one after the other, each of which can be served when its turn comes:
  -- there are at most 2^64 blocks, other threads leave the server healthy, a number that `eth_call`
  -- or `eth_estimateGas` names explicitly is that of a block, and the clock of
  -- `eth_sendRawTransaction` is past 1970. Each is answered with a result or an error, the server
  -- stays healthy, and the middleware has counted the requests.
  pub start_server-Serviced :
      (timestamp : ℕ) (qs : List (Request J))
      → CanRun (start_server I R C (some timestamp)) qs
      → (s : Server I) × (start_server I R C (some timestamp) ≡ ret s)
        × (s.table ≡ handlers I)
        × (s.middleware.count ≡ 0)
        × Serviced s qs
  start_server-Serviced timestamp qs can =
      let (s, started, table, count, up, v) = start_server_lem timestamp in
      (
        s,
        started,
        table,
        count,
        serve_all-Serviced s qs up v (subst (λ o. CanRun o qs) started can),
      )
