-- ===== src/Db/Inputs.antt =====
-- src/db.rs, `submit_tx`: what of a transaction its run depends on.
use ethereum_prototype.Base.{
  ℕ, ◌≡◌, refl, sym, ap, ◌∙◌, some, push, Result, ok, err, ret, String, Bool-cases, inl, inr,
}
use ethereum_prototype.Crates.Rlp.{Rlp}
use ethereum_prototype.Crates.Crypto.{Crypto}
use ethereum_prototype.Crates.Evm.{Evm}
use ethereum_prototype.Transaction.Unverified.{receiver, receiver_of}
use ethereum_prototype.Transaction.Signed.{SignedTransaction}
use ethereum_prototype.Ethcore.{Block, compute_hash}
use ethereum_prototype.Backend.{Accounts, execute, view}
use ethereum_prototype.Backend.Looks.{LooksSame, same_execute}
use ethereum_prototype.Backend.Runs.{succeeded}
use ethereum_prototype.Db.{HashMapEthDb, submit_tx, store_block, next_header}
use ethereum_prototype.Db.Valid.{IsValid}
use ethereum_prototype.Db.Valid.Submit.{start_backend, run_after, db_after, submit_tx_lem}
use ethereum_prototype.Db.Submission.{best_and_state}

-- Transactions of the same sender that ask for the same, at the same price.
pub record AsksSame (tx tx' : SignedTransaction) : Type 0 where
  pub sender : tx.sender ≡ tx'.sender
  pub gas_price : tx.transaction.unsigned.gas_price ≡ tx'.transaction.unsigned.gas_price
  pub value : tx.transaction.unsigned.value ≡ tx'.transaction.unsigned.value
  pub action : tx.transaction.unsigned.action ≡ tx'.transaction.unsigned.action
  pub tx_data : tx.transaction.unsigned.tx_data ≡ tx'.transaction.unsigned.tx_data

module _ (R : Rlp) (C : Crypto) (tx tx' : SignedTransaction) (timestamp : ℕ)
    (same : AsksSame tx tx') (E : Evm) (db : HashMapEthDb) where
  start-LooksSame :
      (best : Block) (accounts : Accounts)
      → LooksSame
          (start_backend R C tx timestamp db best accounts)
          (start_backend R C tx' timestamp db best accounts)
  unfolding view next_header compute_hash
  start-LooksSame best accounts = record {
    config = refl;
    seen = λ i. record (view (start_backend R C tx timestamp db best accounts)) {
      gas_price = same.gas_price i;
      origin = same.sender i;
    };
    accounts = refl;
  }

  same_run :
      (best : Block) (accounts : Accounts)
      → ((run_after R C tx timestamp E db best accounts).0.accounts
          ≡ (run_after R C tx' timestamp E db best accounts).0.accounts)
        × ((run_after R C tx timestamp E db best accounts).1
            ≡ (run_after R C tx' timestamp E db best accounts).1)
  unfolding receiver
  same_run best accounts =
      let u = tx.transaction.unsigned in
      let start' = start_backend R C tx' timestamp db best accounts in
      let to : receiver tx.transaction ≡ receiver tx'.transaction = ap receiver_of same.action in
      let (left, exits) =
        same_execute E (start_backend R C tx timestamp db best accounts) start'
          (start-LooksSame best accounts) tx.sender u.value (receiver tx.transaction) u.tx_data in
      (
        left ∙ (λ i.
            (execute E start' (same.sender i) (same.value i) (to i) (same.tx_data i)).0.accounts),
        exits ∙ (λ i. (execute E start' (same.sender i) (same.value i) (to i) (same.tx_data i)).1),
      )

  db_after-accounts :
      (t : SignedTransaction) (best : Block) (accounts : Accounts)
      → (db_after R C t timestamp E db best accounts).accounts
        ≡ push db.accounts (run_after R C t timestamp E db best accounts).0.accounts
  unfolding store_block
  db_after-accounts t best accounts = refl

  -- On a valid database, with a clock after 1970, two transactions of the same sender with the same
  -- gas price, value, action and data fare alike, whatever their nonces and gas limits are: both
  -- succeed or both fail, and the accounts after them are the same.
  pub submit_tx_blind :
      IsValid R C db
      → (db1 : HashMapEthDb) × (db2 : HashMapEthDb) × (r : Result String (Unit {0})) × (submit_tx R
            C E db tx
            (some timestamp)
          ≡ ret (db1, r))
        × (submit_tx R C E db tx' (some timestamp) ≡ ret (db2, r))
        × (db1.accounts ≡ db2.accounts)
  submit_tx_blind v =
      let (best, accounts, p, q) = best_and_state R C E db v tx timestamp in
      let (after, exits) = same_run best accounts in
      let e = submit_tx_lem R C tx timestamp E db best accounts p q in
      let e' = submit_tx_lem R C tx' timestamp E db best accounts p q in
      elim (Bool-cases (succeeded (run_after R C tx timestamp E db best accounts).1.0)) [
        | inl good ↦ (
          db_after R C tx timestamp E db best accounts,
          db_after R C tx' timestamp E db best accounts,
          ok tt,
          rw good at e,
          rw (ap (λ x. succeeded x.0) (sym exits) ∙ good) at e',
          db_after-accounts tx best accounts
              ∙ ap (push db.accounts) after
              ∙ sym (db_after-accounts tx' best accounts),
        )
        | inr bad ↦ (
          db,
          db,
          err "invalid transaction received",
          rw bad at e,
          rw (ap (λ x. succeeded x.0) (sym exits) ∙ bad) at e',
          refl,
        )
      ]
