-- ===== src/Db/Valid/Estimate.antt =====
-- src/db.rs, `estimate_gas`, on a database that satisfies the invariant.
use mathlib.Core.Path.{subst}
use ethereum_prototype.Base.{
  ℕ, ◌≡◌, ◌∙◌, Option, some, List, get_elem?, get_last?, set, length-set, get_elem?-set_inv,
  get_elem?-lt, ret, arith, Option-cases, inl, inr,
}
use ethereum_prototype.Crates.Rlp.{Rlp}
use ethereum_prototype.Crates.Crypto.{Crypto}
use ethereum_prototype.Crates.Evm.{Evm, ExitReason}
use ethereum_prototype.Backend.{Accounts, execute}
use ethereum_prototype.Backend.Tidy.{IsTidy}
use ethereum_prototype.Backend.Runs.{execute-IsTidy}
use ethereum_prototype.Db.{HashMapEthDb, estimate_gas, query_backend}
use ethereum_prototype.Db.Valid.{IsValid}

module _ (R : Rlp) (C : Crypto) (db : HashMapEthDb) (v : IsValid R C db) (n : ℕ)
    (old new : Accounts) (at : get_elem? db.accounts n ≡ some old) (tidy : IsTidy new) where
  abbrev rewritten : HashMapEthDb
  rewritten = record db { accounts = set db.accounts n new }

  rewritten-IsTidy : (i : ℕ) (a : Accounts) → get_elem? rewritten.accounts i ≡ some a → IsTidy a
  rewritten-IsTidy i a e =
      elim (get_elem?-set_inv db.accounts n i new (get_elem?-lt db.accounts n at) e) [
        | inl (here, same) ↦ subst IsTidy same tidy
        | inr before ↦ v.tidy i a before
      ]

  rewritten-IsValid : IsValid R C rewritten
  rewritten-IsValid = record {
    chain = v.chain;
    states = length-set db.accounts n new ∙ v.states;
    indexed = v.indexed;
    known = v.known;
    tidy = rewritten-IsTidy;
  }

module _ (R : Rlp) (C : Crypto) (E : Evm) (db : HashMapEthDb) (v : IsValid R C db) where
  -- Whatever block an estimate is asked for on a valid database: if it returns, the database that
  -- it leaves is valid.
  pub estimate_gas-IsValid :
      (n caller value : ℕ) (to : Option ℕ) (input : List ℕ) {db' : HashMapEthDb}
      {r : ExitReason × List ℕ × ℕ}
      → estimate_gas E db n caller value to input ≡ ret (db', r)
      → IsValid R C db'
  unfolding estimate_gas
  estimate_gas-IsValid n caller value to input {db'} h =
      elim (Option-cases (get_elem? db.accounts n)) [
        | inl missing ↦ absurd (ground arith)
        | inr (old, at) ↦ elim (Option-cases (get_last? db.blocks)) [
          | inl missing ↦ absurd (ground arith)
          | inr (best, last) ↦
              let b = query_backend old caller best db.config in
              subst (IsValid R C) (ground arith) (
                rewritten-IsValid R C db v n old (execute E b caller value to input).0.accounts at
                  (execute-IsTidy E b caller value to input (v.tidy n old at)))
        ]
      ]
