-- ===== src/Rpc/Eth/Steps.antt =====
-- The sections of the handlers that hold the lock for writing, as steps of the runtime that any
-- number of threads take in any order; what every such step keeps.
use ethereum_prototype.Base.{
  ℕ, ◌≡◌, refl, sym, ap, ◌∙◌, inl, inr, true, Option, none, some, List, get_elem?, get_elem?-push,
  get_elem?-lt, Result, ok, err, Outcome, ret, panic, arith, Bool-cases, String, Outcome-cases,
}
use mathlib.Core.Path.{subst}
use ethereum_prototype.Crates.Rlp.{Rlp}
use ethereum_prototype.Crates.Crypto.{Crypto}
use ethereum_prototype.Crates.Evm.{Evm}
use ethereum_prototype.Transaction.Signed.{SignedTransaction}
use ethereum_prototype.Ethcore.{Block}
use ethereum_prototype.RpcTypes.{Bytes}
use ethereum_prototype.Db
use ethereum_prototype.Db.{HashMapEthDb, Clock, submit_tx, unix, new_block}
use ethereum_prototype.Db.Valid.{IsValid}
use ethereum_prototype.Db.Valid.Estimate.{estimate_gas-IsValid}
use ethereum_prototype.Db.Submission.{submit_tx_total, Submitted}
use ethereum_prototype.Db.Queries.{call_keeps, estimate_gas_blocks}
use ethereum_prototype.Rpc.Runtime.{
  Runtime, with_mut_db, with_mut_db_poisoned, with_mut_db_ret, with_mut_db_panic,
}
use ethereum_prototype.Rpc.Eth.{submit_parsed, call_locked, estimate_locked}

-- One chain begins with the other.
abbrev pub Continues : HashMapEthDb → HashMapEthDb → Type 0
Continues db db' =
    (i : ℕ) (b : Block) → get_elem? db.blocks i ≡ some b → get_elem? db'.blocks i ≡ some b

module _ (R : Rlp) (C : Crypto) (E : Evm) where
  pub data Step (rt : Runtime) (rt' : Runtime) : Type 0 where
    submit :
        (now : Clock) (signed : SignedTransaction)
        → (with_mut_db rt (submit_parsed R C E now signed)).0 ≡ rt'
        → Step rt rt'
    call :
        (n from to : ℕ) (input : List ℕ)
        → (with_mut_db rt (call_locked E n from to input)).0 ≡ rt'
        → Step rt rt'
    estimate :
        (n from value : ℕ) (to : Option ℕ) (input : List ℕ)
        → (with_mut_db rt (estimate_locked E n from value to input)).0 ≡ rt'
        → Step rt rt'

  pub data Reach (rt : Runtime) : Runtime → Type 0 where
    here : Reach rt rt
    next : {rt' rt'' : Runtime} → Reach rt rt' → Step rt' rt'' → Reach rt rt''

  pub Reach-trans : {rt rt' rt'' : Runtime} → Reach rt rt' → Reach rt' rt'' → Reach rt rt''
  Reach-trans r here = r
  Reach-trans r (next s t) = next (Reach-trans r s) t

  -- What holds between a database and the one that a section under the write lock leaves.
  pub record Kept (db db' : HashMapEthDb) : Type 0 where
    pub valid : IsValid R C db'
    pub continues : Continues db db'

  pub Kept-refl : {db : HashMapEthDb} → IsValid R C db → Kept db db
  Kept-refl v = record { valid = v; continues = λ i b e. e }

  Submitted-Continues :
      (db db' : HashMapEthDb) (tx : SignedTransaction) (r : Result String (Unit {0}))
      → Submitted R C E db tx db' r
      → Continues db db'
  Submitted-Continues db db' tx (err e) same i b h =
      subst (λ d. get_elem? d.blocks i ≡ some b) (sym same) h
  Submitted-Continues db db' tx (ok done) s i b h =
      let (best, block, accounts, p, f, t, blocks, states) = s in
      rw blocks (ground (arith, get_elem?-push db.blocks block i, get_elem?-lt db.blocks i h))

  pub submit_tx_panics :
      (db : HashMapEthDb) (tx : SignedTransaction) → submit_tx R C E db tx none ≡ panic
  unfolding submit_tx
  submit_tx_panics db tx = ground arith

  pub submit_parsed-Kept :
      (now : Clock) (signed : SignedTransaction) {db db' : HashMapEthDb} {r : Result String ℕ}
      → IsValid R C db
      → submit_parsed R C E now signed db ≡ ret (db', r)
      → Kept db db'
  unfolding submit_parsed
  submit_parsed-Kept none signed {db} v h = absurd (ground (arith, submit_tx_panics db signed))
  submit_parsed-Kept (some t) signed {db} v h =
      let (db'', r, e, v', s) = submit_tx_total R C E db v signed t in
      subst (Kept db) (ground arith)
        (record { valid = v'; continues = Submitted-Continues db db'' signed r s })

  pub call_locked-Kept :
      (n from to : ℕ) (input : List ℕ) {db db' : HashMapEthDb} {r : Result String Bytes}
      → IsValid R C db
      → call_locked E n from to input db ≡ ret (db', r)
      → Kept db db'
  unfolding call_locked
  call_locked-Kept n from to input {db} {db'} v h =
      elim (Outcome-cases (Db.call E db n from to input)) [
        | inl p ↦ absurd (ground arith)
        | inr ((d, out), e) ↦
            let same : db ≡ db' = ground (arith, call_keeps E db n from to input e) in
            subst (Kept db) same (Kept-refl v)
      ]

  pub estimate_locked-Kept :
      (n from value : ℕ) (to : Option ℕ) (input : List ℕ) {db db' : HashMapEthDb}
      {r : Result String ℕ}
      → IsValid R C db
      → estimate_locked E n from value to input db ≡ ret (db', r)
      → Kept db db'
  unfolding estimate_locked
  estimate_locked-Kept n from value to input {db} {db'} v h =
      elim (Outcome-cases (Db.estimate_gas E db n from value to input)) [
        | inl p ↦ absurd (ground arith)
        | inr ((d, out), e) ↦
            let same : d ≡ db' = ground arith in
            let blocks = estimate_gas_blocks E db n from value to input e in
            subst (Kept db) same (record {
              valid = estimate_gas-IsValid R C E db v n from value to input e;
              continues = λ i b h. rw blocks h;
            })
      ]

  -- What a step keeps, and what it leaves.
  pub record Served (rt rt' : Runtime) : Type 0 where
    pub kept : Kept rt.eth_db rt'.eth_db
    pub poisoned : rt.poisoned ≡ true → rt' ≡ rt

  with_mut_db-Served {ℓ} :
      {A : Type ℓ} (rt : Runtime) (f : HashMapEthDb → Outcome (HashMapEthDb × Result String A))
      → IsValid R C rt.eth_db
      → ((db' : HashMapEthDb) (r : Result String A)
          → f rt.eth_db ≡ ret (db', r)
          → Kept rt.eth_db db')
      → Served rt (with_mut_db rt f).0
  with_mut_db-Served rt f v keeps = elim (Bool-cases rt.poisoned) [
    | inl p ↦
        subst (λ x. Served rt x.0) (sym (with_mut_db_poisoned rt f p))
          (record { kept = Kept-refl v; poisoned = λ h. refl })
    | inr p ↦ elim (Outcome-cases (f rt.eth_db)) [
      | inl bad ↦
          subst (λ x. Served rt x.0) (sym (with_mut_db_panic rt f p bad))
            (record { kept = Kept-refl v; poisoned = λ h. cc })
      | inr ((db', r), good) ↦
          subst (λ x. Served rt x.0) (sym (with_mut_db_ret rt f p good))
            (record { kept = keeps db' r good; poisoned = λ h. cc })
    ]
  ]

  Step-Served : {rt rt' : Runtime} → IsValid R C rt.eth_db → Step rt rt' → Served rt rt'
  Step-Served {rt} v (submit now signed e) = subst (Served rt) e (
      with_mut_db-Served rt (submit_parsed R C E now signed) v
        (λ db' r h. submit_parsed-Kept now signed v h))
  Step-Served {rt} v (call n from to input e) = subst (Served rt) e (
      with_mut_db-Served rt (call_locked E n from to input) v
        (λ db' r h. call_locked-Kept n from to input v h))
  Step-Served {rt} v (estimate n from value to input e) = subst (Served rt) e (
      with_mut_db-Served rt (estimate_locked E n from value to input) v
        (λ db' r h. estimate_locked-Kept n from value to input v h))

  -- Whatever requests are served, in whatever order: a valid database stays valid, and the blocks
  -- that it holds stay where they are. Once the lock is poisoned nothing changes any more.
  pub Reach-Served : {rt rt' : Runtime} → IsValid R C rt.eth_db → Reach rt rt' → Served rt rt'
  Reach-Served v here = record { kept = Kept-refl v; poisoned = λ h. refl }
  Reach-Served v (next r s) =
      let before = Reach-Served v r in
      let step = Step-Served before.kept.valid s in
      record {
        kept = record {
          valid = step.kept.valid;
          continues = λ i b e. step.kept.continues i b (before.kept.continues i b e);
        };
        poisoned = λ h.
            let same = before.poisoned h in
            step.poisoned (ap (λ (t : Runtime). t.poisoned) same ∙ h) ∙ same;
      }
