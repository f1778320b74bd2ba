-- ===== src/Db/Effects.antt =====
-- What a submitted transaction does to the accounts.
use ethereum_prototype.Base.{
  ℕ, ◌≡◌, refl, sym, ap, ◌∙◌, true, Option, some, List, get_last?, get_last?-push, ok, ret, arith,
  Bool-cases, inl, inr,
}
use ethereum_prototype.Crates.Rlp.{Rlp}
use ethereum_prototype.Crates.Crypto.{Crypto}
use ethereum_prototype.Crates.Evm.{Evm}
use ethereum_prototype.Transaction.Unverified.{receiver}
use ethereum_prototype.Transaction.Signed.{SignedTransaction}
use ethereum_prototype.Ethcore.{Block}
use ethereum_prototype.Backend.{Accounts, EthDbBackend, execute, transact, view}
use ethereum_prototype.Backend.Accounts.{World, world, changes}
use ethereum_prototype.Backend.Runs.{succeeded, execute-succeeded}
use ethereum_prototype.Db.{HashMapEthDb, submit_tx, store_block}
use ethereum_prototype.Db.Valid.{IsValid}
use ethereum_prototype.Db.Valid.Submit.{start_backend, run_after, db_after, submit_tx_lem}
use ethereum_prototype.Db.Submission.{best_and_state}

-- The accounts as the executor sees them, whatever the backend around them.
abbrev pub world_of : EthDbBackend → Accounts → World
world_of b accounts = world (record b { accounts = accounts })

pub world_of-accounts : (b c : EthDbBackend) → world_of b c.accounts ≡ world c
unfolding view
world_of-accounts b c = refl

pub execute-exit :
    (E : Evm) (b : EthDbBackend) (sender value : ℕ) (to : Option ℕ) (input : List ℕ)
    → (execute E b sender value to input).1.0 ≡ (transact E b sender value to input).result.0
unfolding execute
execute-exit E b sender value to input = refl

module _ (R : Rlp) (C : Crypto) (E : Evm) (db : HashMapEthDb) (v : IsValid R C db)
    (tx : SignedTransaction) (timestamp : ℕ) where
  module _ (best : Block) (accounts : Accounts) where
    abbrev start : EthDbBackend
    start = start_backend R C tx timestamp db best accounts

    last_state :
        get_last? (db_after R C tx timestamp E db best accounts).accounts
        ≡ some (run_after R C tx timestamp E db best accounts).0.accounts
    unfolding store_block
    last_state =
        get_last?-push db.accounts (run_after R C tx timestamp E db best accounts).0.accounts

    run_world :
        succeeded (run_after R C tx timestamp E db best accounts).1.0 ≡ true
        → world_of start (run_after R C tx timestamp E db best accounts).0.accounts
          ≡ changes
              (world start)
              (transact E start tx.sender tx.transaction.unsigned.value
                (receiver tx.transaction)
                tx.transaction.unsigned.tx_data).values
    run_world good =
        let u = tx.transaction.unsigned in
        let to = receiver tx.transaction in
        let exits = execute-exit E start tx.sender u.value to u.tx_data in
        world_of-accounts start (run_after R C tx timestamp E db best accounts).0
        ∙ (execute-succeeded E start tx.sender u.value to u.tx_data
            (ap succeeded (sym exits) ∙ good)).0

    run_succeeded :
        {db' : HashMapEthDb}
        → get_last? db.blocks ≡ some best
        → get_last? db.accounts ≡ some accounts
        → submit_tx R C E db tx (some timestamp) ≡ ret (db', ok tt)
        → (succeeded (run_after R C tx timestamp E db best accounts).1.0 ≡ true)
          × (db_after R C tx timestamp E db best accounts ≡ db')
    run_succeeded p q h =
        let e = submit_tx_lem R C tx timestamp E db best accounts p q in
        elim (Bool-cases (succeeded (run_after R C tx timestamp E db best accounts).1.0)) [
          | inl good ↦ (good, ground arith)
          | inr bad ↦ absurd (ground arith)
        ]

  -- After a success on a valid database the executor finds the accounts changed by the changes that
  -- the run of the transaction returned, in their order, from what they were after the best block.
  -- The run starts from the best block's accounts, with the sender, the value, the receiver and the
  -- data of the transaction.
  pub submit_tx-world :
      {db' : HashMapEthDb}
      → submit_tx R C E db tx (some timestamp) ≡ ret (db', ok tt)
      → (best : Block) × (before : Accounts) × (after : Accounts) × (get_last? db.blocks
          ≡ some best)
        × (get_last? db.accounts ≡ some before)
        × (get_last? db'.accounts ≡ some after)
        × let start = start_backend R C tx timestamp db best before in
          let run =
            transact E start tx.sender tx.transaction.unsigned.value
              (receiver tx.transaction)
              tx.transaction.unsigned.tx_data in
          world_of start after ≡ changes (world start) run.values
  submit_tx-world h =
      let (best, before, p, q) = best_and_state R C E db v tx timestamp in
      let (good, same) = run_succeeded best before p q h in
      (
        best,
        before,
        (run_after R C tx timestamp E db best before).0.accounts,
        p,
        q,
        ap (λ (d : HashMapEthDb). get_last? d.accounts) (sym same) ∙ last_state best before,
        run_world best before good,
      )
