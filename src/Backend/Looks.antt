-- ===== src/Backend/Looks.antt =====
-- Runs on backends that the executor cannot tell apart.
use ethereum_prototype.Base.{ℕ, ◌≡◌, sym, ap, ◌∙◌, false, Option, none, some, List, arith}
use ethereum_prototype.Crates.Evm.{Evm, ExitReason, succeed, Executed}
use ethereum_prototype.Backend.{
  Accounts, EthDbBackend, execute, transact, view, apply, apply_values,
}

-- Backends that the executor cannot tell apart.
pub record LooksSame (b b' : EthDbBackend) : Type 0 where
  pub config : b.config ≡ b'.config
  pub seen : view b ≡ view b'
  pub accounts : b.accounts ≡ b'.accounts

-- The accounts that a run leaves.
abbrev left_by : Accounts → Executed (ExitReason × Option (List ℕ)) → Accounts
left_by accounts run = elim run.result.0 [
  | succeed s ↦ apply_values false accounts run.values
  | _ ↦ accounts
]

module _ (E : Evm) where
  execute_lem :
      (b : EthDbBackend) (sender value : ℕ) (to : Option ℕ) (input : List ℕ)
      → let run = transact E b sender value to input in
        ((execute E b sender value to input).0.accounts ≡ left_by b.accounts run)
        × ((execute E b sender value to input).1 ≡ (run.result.0, run.result.1, run.used_gas))
  unfolding execute apply
  execute_lem b sender value to input = ground arith

  module _ (b b' : EthDbBackend) (s : LooksSame b b') (sender value : ℕ) where
    same_transact :
        (to : Option ℕ) (input : List ℕ)
        → transact E b sender value to input ≡ transact E b' sender value to input
    unfolding transact
    same_transact none input = cc (s.config, s.seen)
    same_transact (some h) input = cc (s.config, s.seen)

    pub same_execute :
        (to : Option ℕ) (input : List ℕ)
        → ((execute E b sender value to input).0.accounts
            ≡ (execute E b' sender value to input).0.accounts)
          × ((execute E b sender value to input).1 ≡ (execute E b' sender value to input).1)
    same_execute to input =
        let run = same_transact to input in
        let (left, exits) = execute_lem b sender value to input in
        let (left', exits') = execute_lem b' sender value to input in
        (
          left ∙ (λ i. left_by (s.accounts i) (run i)) ∙ sym left',
          exits ∙ ap (λ r. (r.result.0, r.result.1, r.used_gas)) run ∙ sym exits',
        )
