-- ===== src/Crates/Evm.antt =====
-- The crate `evm` as src/db.rs calls it: the executor is an operation that reads the state through
-- the `Backend` that the program hands it, and returns the changes that it wants applied.
pub mod Sample
use ethereum_prototype.Base.{ℕ, Bool, Option, List}

pub data ExitSucceed : Type 0 where
  stopped returned suicided : ExitSucceed

-- The payloads that the program does not look at are numbers.
pub data ExitReason : Type 0 where
  succeed : ExitSucceed → ExitReason
  error : ℕ → ExitReason
  revert : ℕ → ExitReason
  fatal : ℕ → ExitReason

-- `Config`, of which the program names only this value.
pub data Config : Type 0 where
  istanbul : Config

pub record Basic : Type 0 where
  pub balance : ℕ
  pub nonce : ℕ

pub record Log : Type 0 where
  pub address : ℕ
  pub topics : List ℕ
  pub log_data : List ℕ

pub data Apply : Type 0 where
  -- address, basic, code, storage, reset_storage
  modify : ℕ → Basic → Option (List ℕ) → List (ℕ × ℕ) → Bool → Apply
  -- address
  delete : ℕ → Apply

-- The trait `Backend`.
pub record Backend : Type 0 where
  pub gas_price : ℕ
  pub origin : ℕ
  pub block_hash : ℕ → ℕ
  pub block_number : ℕ
  pub block_coinbase : ℕ
  pub block_timestamp : ℕ
  pub block_difficulty : ℕ
  pub block_gas_limit : ℕ
  pub chain_id : ℕ
  pub exists : ℕ → Bool
  pub basic : ℕ → Basic
  pub code : ℕ → List ℕ
  pub storage : ℕ → ℕ → ℕ
  pub original_storage : ℕ → ℕ → Option ℕ

-- `Context`
pub record Context : Type 0 where
  pub address : ℕ
  pub caller : ℕ
  pub apparent_value : ℕ

-- `Capture<(ExitReason, Vec<u8>), _>`
pub data Capture : Type 0 where
  exit : ExitReason → List ℕ → Capture
  trap : Capture

-- What the program reads off an executor after a run: `used_gas` and, of
-- `into_state().deconstruct()`, the changes and the logs.
pub record Executed (A : Type 0) : Type 0 where
  pub result : A
  pub used_gas : ℕ
  pub values : List Apply
  pub logs : List Log

-- `StackExecutor` over a fresh `MemoryStackState` with a gas limit of `u64::MAX`.
pub record Evm : Type 0 where
  -- caller, address, value, data, gas_limit
  pub transact_call : Config → Backend → ℕ → ℕ → ℕ → List ℕ → ℕ → Executed (ExitReason × List ℕ)
  -- caller, value, init code, gas_limit
  pub transact_create : Config → Backend → ℕ → ℕ → List ℕ → ℕ → Executed ExitReason
  -- code_address, input, target_gas, is_static, context, with no transfer
  pub call : Config → Backend → ℕ → List ℕ → Option ℕ → Bool → Context → Executed Capture
