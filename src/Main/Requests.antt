-- ===== src/Main/Requests.antt =====
-- src/main.rs and src/rpc.rs: requests by name, from the handler to the methods.
use ethereum_prototype.Base.{
  ◌≡◌, ◌≢◌, refl, sym, ap, ◌∙◌, inl, inr, String, some, Result, ok, err, ret, Option-cases,
}
use ethereum_prototype.Crates.JsonRpc.{JsonRpc, IsLawful}
use ethereum_prototype.Crates.Rlp.{Rlp}
use ethereum_prototype.Crates.Crypto.{Crypto}
use ethereum_prototype.Crates.Evm.{Evm}
use ethereum_prototype.Middleware.{on_request}
use ethereum_prototype.Rpc.Service.{Method, Params, handle, name_of}
use ethereum_prototype.Rpc.Service.Table.{handlers, find-handlers_iff}
use ethereum_prototype.Rpc.Service.Dispatch.{
  Request, tag, dispatch, dispatch_unknown, dispatch_called,
}
use ethereum_prototype.Main.{Server, serve}

module _ (I : JsonRpc Method) (R : Rlp) (C : Crypto) (E : Evm) {J : Type 0}
    (parse : (m : Method) → J → Result String (Params m)) where
  -- The middleware hands every request on to the delegates.
  serve-dispatch :
      (s : Server I) (q : Request J)
      → ((serve I R C E parse s q).0.runtime ≡ (dispatch I R C E parse s.table q s.runtime).0)
        × ((serve I R C E parse s q).1 ≡ (dispatch I R C E parse s.table q s.runtime).1)
  unfolding serve on_request
  serve-dispatch s q = (refl, refl)

  pub serve-table : (s : Server I) (q : Request J) → (serve I R C E parse s q).0.table ≡ s.table
  unfolding serve
  serve-table s q = refl

  module _ (L : IsLawful I) (s : Server I) (full : s.table ≡ handlers I) (q : Request J) where
    -- Where the handler is extended as documented and the table is that of the start: a request
    -- with the name of a method and parameters that are read is served by that method. What the
    -- method leaves of the runtime and what it answers is what the server leaves and answers.
    pub serve_named :
        (m : Method) (p : Params m)
        → q.name ≡ name_of m
        → parse m q.params ≡ ok p
        → ((serve I R C E parse s q).0.runtime ≡ (handle R C E q.others q.now m p s.runtime).0)
          × ((serve I R C E parse s q).1 ≡ tag m (handle R C E q.others q.now m p s.runtime).1)
    serve_named m p named read =
        let found : I.find_method s.table q.name ≡ some m =
          ap (λ t. I.find_method t q.name) full ∙ (find-handlers_iff I L q.name m).1 named in
        let called = dispatch_called I R C E parse s.table q s.runtime m found read in
        let (runtime, reply) = serve-dispatch s q in
        (runtime ∙ ap (λ x. x.0) called, reply ∙ ap (λ x. x.1) called)

    -- A request with any other name is answered with the error for it, and changes nothing.
    pub serve_unknown :
        ((m : Method) → q.name ≢ name_of m)
        → ((serve I R C E parse s q).0.runtime ≡ s.runtime)
          × ((serve I R C E parse s q).1 ≡ ret (err I.method_not_found))
    serve_unknown unknown = elim (Option-cases (I.find_method s.table q.name)) [
      | inl missing ↦
          let refused = dispatch_unknown I R C E parse s.table q s.runtime missing in
          let (runtime, reply) = serve-dispatch s q in
          (runtime ∙ ap (λ x. x.0) refused, reply ∙ ap (λ x. x.1) refused)
      | inr (m, found) ↦ absurd (
          unknown m (
            (find-handlers_iff I L q.name m).0
              (ap (λ t. I.find_method t q.name) (sym full) ∙ found)))
    ]
