-- ===== src/Db/Estimates.antt =====
-- What an estimate does to the accounts.
use mathlib.Core.Path.{subst}
use ethereum_prototype.Base.{
  ℕ, ◌<◌, ◌≡◌, refl, ap, ◌∙◌, sym, Bool, true, false, Option, some, List, get_last?, get_elem?, set,
  length, get_elem?-set, get_elem?-of_lt, get_last?-of_pos, ◌==◌, if◌then◌else◌, ret, arith,
  Bool-cases, inl, inr,
}
use ethereum_prototype.Crates.Rlp.{Rlp}
use ethereum_prototype.Crates.Crypto.{Crypto}
use ethereum_prototype.Crates.Evm.{Evm}
use ethereum_prototype.Ethcore.{Block}
use ethereum_prototype.Backend.{Accounts, EthDbBackend, execute, transact}
use ethereum_prototype.Backend.Accounts.{world, changes}
use ethereum_prototype.Backend.Runs.{succeeded, execute_failed, execute-succeeded}
use ethereum_prototype.Db.{HashMapEthDb, estimate_gas, query_backend, or_empty}
use ethereum_prototype.Db.Valid.{IsValid}
use ethereum_prototype.Db.Effects.{world_of, world_of-accounts, execute-exit}
use ethereum_prototype.Db.Queries.{estimate_gas_lem}

module _ (E : Evm) (start : EthDbBackend) (caller value : ℕ) (to : Option ℕ) (input : List ℕ) where
  -- What a run on `start` leaves of the accounts: after a success the executor finds the changes
  -- that the run returned, and otherwise nothing has changed.
  abbrev pub Leaves : Bool → Accounts → Type 0
  Leaves true after =
      world_of start after ≡ changes (world start) (transact E start caller value to input).values
  Leaves false after = after ≡ start.accounts

  execute-Leaves :
      Leaves
        (succeeded (transact E start caller value to input).result.0)
        (execute E start caller value to input).0.accounts
  execute-Leaves =
      let exits = execute-exit E start caller value to input in
      elim (Bool-cases (succeeded (transact E start caller value to input).result.0)) [
        | inl good ↦
            subst (λ r. Leaves r (execute E start caller value to input).0.accounts) (sym good)
              (world_of-accounts start (execute E start caller value to input).0
                ∙ (execute-succeeded E start caller value to input good).0)
        | inr bad ↦
            subst (λ r. Leaves r (execute E start caller value to input).0.accounts) (sym bad)
              (ap (λ (b : EthDbBackend). b.accounts)
                (execute_failed E start caller value to input (ap succeeded exits ∙ bad)))
      ]

module _ (R : Rlp) (C : Crypto) (E : Evm) (db : HashMapEthDb) (v : IsValid R C db) (n : ℕ) where
  -- On a valid database, for the number of a block that there is, an estimate does not panic and
  -- returns the exit reason, the output and the gas of a run from the accounts after that block,
  -- with the best block around it. If the run succeeds, its changes stay: the accounts after that
  -- block are afterwards those before, changed by what the run returned. If it does not, they are
  -- as they were. The accounts after other blocks, the blocks, the index, the receipts and the
  -- configuration stay.
  pub estimate_gas-Leaves :
      (caller value : ℕ) (to : Option ℕ) (input : List ℕ)
      → n < length db.blocks
      → (best : Block) × (before : Accounts) × (after : Accounts) × (db' : HashMapEthDb)
        × (get_last? db.blocks ≡ some best)
        × (get_elem? db.accounts n ≡ some before)
        × let start = query_backend before caller best db.config in
          let run = transact E start caller value to input in
          (estimate_gas E db n caller value to input
            ≡ ret (db', (run.result.0, or_empty run.result.1, run.used_gas)))
          × Leaves E start caller value to input (succeeded run.result.0) after
          × ((i : ℕ)
              → get_elem? db'.accounts i ≡ (if n == i then some after else get_elem? db.accounts i))
          × (db'.blocks ≡ db.blocks)
          × (db'.hash_index ≡ db.hash_index)
          × (db'.infos ≡ db.infos)
          × (db'.config ≡ db.config)
  unfolding execute
  estimate_gas-Leaves caller value to input small =
      let (best, last) = get_last?-of_pos db.blocks v.chain.pos in
      let here : n < length db.accounts = omega (arith, v.states) in
      let (before, at) = get_elem?-of_lt db.accounts n here in
      let start = query_backend before caller best db.config in
      let after = (execute E start caller value to input).0.accounts in
      (
        best,
        before,
        after,
        record db { accounts = set db.accounts n after },
        last,
        at,
        (
          estimate_gas_lem E db n caller value to input before best at last,
          execute-Leaves E start caller value to input,
          λ i. get_elem?-set db.accounts n i after here,
          refl,
          refl,
          refl,
          refl,
        ),
      )
