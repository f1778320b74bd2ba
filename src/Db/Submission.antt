-- ===== src/Db/Submission.antt =====
-- src/db.rs, `submit_tx` as a whole: what it returns, and what it leaves of the database.
use ethereum_prototype.Base.{
  ℕ, ◌≡◌, refl, inl, inr, String, some, [], ◌∷◌, get_last?, push, get_last?-of_pos, Result, ok, err,
  ret, arith, Bool-cases,
}
use ethereum_prototype.Crates.Rlp.{Rlp}
use ethereum_prototype.Crates.Crypto.{Crypto}
use ethereum_prototype.Crates.Evm.{Evm}
use ethereum_prototype.Transaction.Signed.{SignedTransaction}
use ethereum_prototype.Ethcore.{Block}
use ethereum_prototype.Backend.{Accounts}
use ethereum_prototype.Backend.Runs.{succeeded}
use ethereum_prototype.Db.{HashMapEthDb, submit_tx, store_block}
use ethereum_prototype.Db.Chain.{Follows}
use ethereum_prototype.Db.Valid.{IsValid}
use ethereum_prototype.Db.Valid.Submit.{
  run_after, db_after, block_after, block_after-Follows, submit_tx_lem, store_block-IsValid,
}

module _ (R : Rlp) (C : Crypto) (E : Evm) where
  -- A database with one block more: it follows the best block and holds `tx` alone, and one state
  -- of the accounts stands after the others. All that was there is there still.
  abbrev pub Extends : HashMapEthDb → SignedTransaction → HashMapEthDb → Type 0
  Extends db tx db' =
      (best : Block) × (block : Block) × (accounts : Accounts) × (get_last? db.blocks ≡ some best)
      × Follows R C best block
      × (block.transactions ≡ tx ∷ [])
      × (db'.blocks ≡ push db.blocks block)
      × (db'.accounts ≡ push db.accounts accounts)

  -- What a call of `submit_tx` may leave behind and return.
  abbrev pub Submitted :
      HashMapEthDb → SignedTransaction → HashMapEthDb → Result String (Unit {0}) → Type 0
  Submitted db tx db' (ok done) = Extends db tx db'
  Submitted db tx db' (err e) = db' ≡ db

  module _ (db : HashMapEthDb) (v : IsValid R C db) (tx : SignedTransaction) (timestamp : ℕ) where
    pub best_and_state :
        (best : Block) × (accounts : Accounts) × (get_last? db.blocks ≡ some best)
        × (get_last? db.accounts ≡ some accounts)
    best_and_state =
        let (best, p) = get_last?-of_pos db.blocks v.chain.pos in
        let (accounts, q) = get_last?-of_pos db.accounts (omega (arith, v.states, v.chain.pos)) in
        (best, accounts, p, q)

    -- On a valid database, with a clock after 1970, `submit_tx` does not panic. Either it succeeds
    -- and the database has one block more, which holds the transaction, or it fails and the
    -- database is as it was. In both cases the database is valid afterwards.
    pub submit_tx_total :
        (db' : HashMapEthDb) × (r : Result String (Unit {0})) × (submit_tx R C E db tx
            (some timestamp)
          ≡ ret (db', r))
        × IsValid R C db'
        × Submitted db tx db' r
    submit_tx_total =
        let (best, accounts, p, q) = best_and_state in
        let e = submit_tx_lem R C tx timestamp E db best accounts p q in
        elim (Bool-cases (succeeded (run_after R C tx timestamp E db best accounts).1.0)) [
          | inl good ↦ (
            db_after R C tx timestamp E db best accounts,
            ok tt,
            ground arith,
            store_block-IsValid R C tx timestamp E db v best accounts p q,
            (
              best,
              block_after R C tx timestamp best,
              (run_after R C tx timestamp E db best accounts).0.accounts,
              p,
              block_after-Follows R C tx timestamp best,
              refl,
              unfold store_block in refl,
              unfold store_block in refl,
            ),
          )
          | inr bad ↦ (db, err "invalid transaction received", ground arith, v, refl)
        ]

    -- Inversion: a success has run the transaction over the last state and stored its block.
    pub submit_tx_ok :
        {db' : HashMapEthDb}
        → submit_tx R C E db tx (some timestamp) ≡ ret (db', ok tt)
        → (best : Block) × (accounts : Accounts) × (get_last? db.blocks ≡ some best)
          × (get_last? db.accounts ≡ some accounts)
          × (db_after R C tx timestamp E db best accounts ≡ db')
    submit_tx_ok h =
        let (best, accounts, p, q) = best_and_state in
        let e = submit_tx_lem R C tx timestamp E db best accounts p q in
        (best, accounts, p, q, ground arith)
