-- ===== src/Crates/Evm/Sample.antt =====
-- An executor for the concrete runs: a call moves its value, writes a slot and logs; a call without
-- a value is reverted; a creation leaves code at a fixed address; a query returns its input.
use ethereum_prototype.Base.{
  ℕ, ◌+◌, ◌-◌, Bool, true, false, Option, none, some, List, [], ◌∷◌, ◌==◌, if◌then◌else◌,
}
use ethereum_prototype.Crates.Evm.{
  Evm, Basic, Config, Backend, Executed, Apply, modify, delete, ExitReason, succeed, revert,
  stopped, returned, Context, Capture, exit,
}

transfer : Backend → ℕ → ℕ → ℕ → List Apply
transfer b caller address value =
    modify caller (record { balance = from.balance - value; nonce = from.nonce + 1 }) none [] false
    ∷ modify address (record { balance = to.balance + value; nonce = to.nonce }) none
        ((1, value) ∷ (2, 0) ∷ []) false
    ∷ delete 99
    ∷ []
  where
    from : Basic
    from = b.basic caller

    to : Basic
    to = b.basic address

call_run : Config → Backend → ℕ → ℕ → ℕ → List ℕ → ℕ → Executed (ExitReason × List ℕ)
unfolding transfer
call_run config b caller address value input gas =
    if value == 0
    then record { result = (revert 3, input); used_gas = 7; values = []; logs = [] }
    else record {
      result = (succeed returned, input);
      used_gas = 21000;
      values = transfer b caller address value;
      logs = record { address = address; topics = value ∷ []; log_data = input } ∷ [];
    }

create_run : Config → Backend → ℕ → ℕ → List ℕ → ℕ → Executed ExitReason
create_run config b caller value code gas = record {
  result = succeed stopped;
  used_gas = 53000;
  values = modify 77 (record { balance = value; nonce = 1 }) (some code) [] true ∷ [];
  logs = [];
}

query_run : Config → Backend → ℕ → List ℕ → Option ℕ → Bool → Context → Executed Capture
query_run config b address input gas static context = record {
  result = exit (succeed returned) input;
  used_gas = 5;
  values = [];
  logs = [];
}

unfoldable pub sample : Evm
unfolding call_run create_run query_run
sample = record { transact_call = call_run; transact_create = create_run; call = query_run }
