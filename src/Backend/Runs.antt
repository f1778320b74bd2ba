-- ===== src/Backend/Runs.antt =====
-- `execute` on every exit reason: what a run leaves in the accounts, the logs and the backend.
use ethereum_prototype.Base.{ℕ, ◌≡◌, Bool, true, false, Option, List, ◌++◌, arith}
use ethereum_prototype.Crates.Evm.{Evm, ExitReason, succeed}
use ethereum_prototype.Backend.{EthDbBackend, apply, execute, transact}
use ethereum_prototype.Backend.Accounts.{world, changes, apply_lem}
use ethereum_prototype.Backend.Tidy.{IsTidy, apply-IsTidy}

abbrev pub succeeded : ExitReason → Bool
succeeded (succeed s) = true
succeeded _ = false

module _ (E : Evm) (b : EthDbBackend) (sender value : ℕ) (to : Option ℕ) (input : List ℕ) where
  -- A run that does not succeed leaves the backend as it was: accounts, information and all.
  pub execute_failed :
      succeeded (execute E b sender value to input).1.0 ≡ false
      → (execute E b sender value to input).0 ≡ b
  unfolding execute
  execute_failed h = ground arith

  -- A run that succeeds changes the world by the changes that the executor returned, in their
  -- order, and appends its logs.
  pub execute-succeeded :
      let run = transact E b sender value to input in
      succeeded run.result.0 ≡ true
      → (world (execute E b sender value to input).0 ≡ changes (world b) run.values)
        × ((execute E b sender value to input).0.info.logs ≡ b.info.logs ++ run.logs)
  unfolding execute
  execute-succeeded h =
      let run = transact E b sender value to input in
      ground (arith, apply_lem b run.values run.logs)

module _ (E : Evm) (b : EthDbBackend) (sender value : ℕ) (to : Option ℕ) (input : List ℕ) where
  -- What a run never changes.
  pub execute_keeps :
      let after = (execute E b sender value to input).0 in
      (after.info.transaction ≡ b.info.transaction)
      × (after.info.block_hash ≡ b.info.block_hash)
      × (after.info.parent_hash ≡ b.info.parent_hash)
      × (after.info.post_state ≡ b.info.post_state)
      × (after.info.index ≡ b.info.index)
  unfolding execute apply
  execute_keeps = ground arith

-- Whatever the executor returns, a run on accounts that keep no slot under the value zero leaves
-- such accounts.
pub execute-IsTidy :
    (E : Evm) (b : EthDbBackend) (sender value : ℕ) (to : Option ℕ) (input : List ℕ)
    → IsTidy b.accounts
    → IsTidy (execute E b sender value to input).0.accounts
unfolding execute
execute-IsTidy E b sender value to input h address slot =
    let run = transact E b sender value to input in
    ground (arith, h address slot, apply-IsTidy b run.values run.logs false h address slot)
