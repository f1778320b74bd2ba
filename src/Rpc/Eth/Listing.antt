-- ===== src/Rpc/Eth/Listing.antt =====
-- src/rpc.rs: the steps of the runtime, and the transactions of the blocks and those with
-- information.
use mathlib.Core.Path.{subst}
use ethereum_prototype.Base.{
  ℕ, ◌≡◌, sym, inl, inr, Bool-cases, Option, none, some, List, Result, Outcome, ret, Outcome-cases,
  String, arith,
}
use ethereum_prototype.Crates.Rlp.{Rlp}
use ethereum_prototype.Crates.Crypto.{Crypto}
use ethereum_prototype.Crates.Evm.{Evm}
use ethereum_prototype.Transaction.Signed.{SignedTransaction}
use ethereum_prototype.RpcTypes.{Bytes}
use ethereum_prototype.Db
use ethereum_prototype.Db.{HashMapEthDb, Clock, submit_tx}
use ethereum_prototype.Db.Valid.{IsValid}
use ethereum_prototype.Db.Queries.{call_keeps}
use ethereum_prototype.Db.Listed.{IsListed}
use ethereum_prototype.Db.Listed.Kept.{submit_tx-IsListed, estimate_gas-IsListed}
use ethereum_prototype.Rpc.Runtime.{
  Runtime, with_mut_db, with_mut_db_poisoned, with_mut_db_ret, with_mut_db_panic,
}
use ethereum_prototype.Rpc.Eth.{submit_parsed, call_locked, estimate_locked}
use ethereum_prototype.Rpc.Eth.Steps.{
  Step, submit, call, estimate, Reach, here, next, Reach-Served, submit_tx_panics,
}

-- A section under the write lock keeps what its result keeps.
with_mut_db_keeps {ℓ κ} :
    {A : Type ℓ} (P : HashMapEthDb → Type κ) (rt : Runtime)
    (f : HashMapEthDb → Outcome (HashMapEthDb × Result String A))
    → P rt.eth_db
    → ((db' : HashMapEthDb) (r : Result String A) → f rt.eth_db ≡ ret (db', r) → P db')
    → P (with_mut_db rt f).0.eth_db
with_mut_db_keeps P rt f before keeps = elim (Bool-cases rt.poisoned) [
  | inl p ↦ subst (λ x. P x.0.eth_db) (sym (with_mut_db_poisoned rt f p)) before
  | inr p ↦ elim (Outcome-cases (f rt.eth_db)) [
    | inl bad ↦ subst (λ x. P x.0.eth_db) (sym (with_mut_db_panic rt f p bad)) before
    | inr ((db', r), good) ↦
        subst (λ x. P x.0.eth_db) (sym (with_mut_db_ret rt f p good)) (keeps db' r good)
  ]
]

module _ (R : Rlp) (C : Crypto) (E : Evm) where
  submit_parsed_inv :
      (now : Clock) (signed : SignedTransaction) (db : HashMapEthDb) {db' : HashMapEthDb}
      {r : Result String ℕ}
      → submit_parsed R C E now signed db ≡ ret (db', r)
      → (r' : Result String (Unit {0})) × (submit_tx R C E db signed now ≡ ret (db', r'))
  unfolding submit_parsed
  submit_parsed_inv now signed db h = elim (Outcome-cases (submit_tx R C E db signed now)) [
    | inl bad ↦ absurd (ground arith)
    | inr ((d, r'), good) ↦ (r', ground arith)
  ]

  submit_parsed-IsListed :
      (now : Clock) (signed : SignedTransaction) {db db' : HashMapEthDb} {r : Result String ℕ}
      → IsValid R C db
      → IsListed R C db
      → submit_parsed R C E now signed db ≡ ret (db', r)
      → IsListed R C db'
  submit_parsed-IsListed none signed {db} v l h =
      let (r, e) = submit_parsed_inv none signed db h in
      absurd (cc (e, submit_tx_panics R C E db signed))
  submit_parsed-IsListed (some t) signed {db} v l h =
      let (r, e) = submit_parsed_inv (some t) signed db h in
      submit_tx-IsListed R C E db signed t r v l e

  call_locked-IsListed :
      (n from to : ℕ) (input : List ℕ) {db db' : HashMapEthDb} {r : Result String Bytes}
      → IsListed R C db
      → call_locked E n from to input db ≡ ret (db', r)
      → IsListed R C db'
  unfolding call_locked
  call_locked-IsListed n from to input {db} {db'} l h =
      elim (Outcome-cases (Db.call E db n from to input)) [
        | inl bad ↦ absurd (ground arith)
        | inr ((d, out), good) ↦
            let same : db ≡ db' = ground (arith, call_keeps E db n from to input good) in
            subst (IsListed R C) same l
      ]

  estimate_locked-IsListed :
      (n from value : ℕ) (to : Option ℕ) (input : List ℕ) {db db' : HashMapEthDb}
      {r : Result String ℕ}
      → IsListed R C db
      → estimate_locked E n from value to input db ≡ ret (db', r)
      → IsListed R C db'
  unfolding estimate_locked
  estimate_locked-IsListed n from value to input {db} {db'} l h =
      elim (Outcome-cases (Db.estimate_gas E db n from value to input)) [
        | inl bad ↦ absurd (ground arith)
        | inr ((d, out), good) ↦
            let same : d ≡ db' = ground arith in
            subst (IsListed R C) same (estimate_gas-IsListed R C E db n from value to input l good)
      ]

  Step-IsListed :
      {rt rt' : Runtime}
      → IsValid R C rt.eth_db
      → IsListed R C rt.eth_db
      → Step R C E rt rt'
      → IsListed R C rt'.eth_db
  Step-IsListed {rt} v l (submit now signed e) =
      subst (λ (x : Runtime). IsListed R C x.eth_db) e
        (with_mut_db_keeps (IsListed R C) rt (submit_parsed R C E now signed) l
          (λ db' r h. submit_parsed-IsListed now signed v l h))
  Step-IsListed {rt} v l (call n from to input e) =
      subst (λ (x : Runtime). IsListed R C x.eth_db) e
        (with_mut_db_keeps (IsListed R C) rt (call_locked E n from to input) l
          (λ db' r h. call_locked-IsListed n from to input l h))
  Step-IsListed {rt} v l (estimate n from value to input e) =
      subst (λ (x : Runtime). IsListed R C x.eth_db) e
        (with_mut_db_keeps (IsListed R C) rt (estimate_locked E n from value to input) l
          (λ db' r h. estimate_locked-IsListed n from value to input l h))

  pub Reach-IsListed :
      {rt rt' : Runtime}
      → IsValid R C rt.eth_db
      → IsListed R C rt.eth_db
      → Reach R C E rt rt'
      → IsListed R C rt'.eth_db
  Reach-IsListed v l here = l
  Reach-IsListed v l (next r s) =
      Step-IsListed (Reach-Served R C E v r).kept.valid (Reach-IsListed v l r) s
