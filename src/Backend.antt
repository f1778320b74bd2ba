-- ===== src/Backend.antt =====
-- src/db.rs, `EthDBBackend`: one run of the virtual machine over the accounts of a block.
pub mod Storage
pub mod Accounts
pub mod Tidy
pub mod Runs
pub mod Looks
use ethereum_prototype.Base.{
  ℕ, Bool, ◌&&◌, true, false, Option, none, some, List, [], ◌∷◌, push, length, ◌==◌, if◌then◌else◌,
}
use ethereum_prototype.Base.Map.{Map, get, insert, remove, keys_where, remove_all}
use ethereum_prototype.Crates.Evm.{
  Evm, Backend, Basic, Log, Apply, modify, delete, Config, Context, Capture, exit, trap, ExitReason,
  succeed, returned, Executed,
}
use ethereum_prototype.Ethcore.{MemAccount, default_account, Block}
use ethereum_prototype.Transaction.Pending.{TransactionInfo}

-- src/rpc.rs, CHAIN_ID
abbrev pub node_chain_id : ℕ
node_chain_id = 127

abbrev pub u64_max : ℕ
u64_max = 18446744073709551615

abbrev pub Accounts : Type 0
Accounts = Map MemAccount

pub record EthDbBackend : Type 0 where
  pub accounts : Accounts
  pub gas_price : ℕ
  pub sender : ℕ
  pub block : Block
  pub info : TransactionInfo
  pub config : Config

-- `entry(address).or_insert(Default::default())`
abbrev pub account_or_default : Option MemAccount → MemAccount
account_or_default none = default_account
account_or_default (some a) = a

-- The loop `for (index, value) in storage`.
write_storage : Map ℕ → List (ℕ × ℕ) → Map ℕ
write_storage st [] = st
write_storage st ((index, value) ∷ writes) =
    write_storage (if value == 0 then remove st index else insert st index value) writes

unfoldable pub modify_storage : Map ℕ → List (ℕ × ℕ) → Bool → Map ℕ
unfolding write_storage
modify_storage st writes reset =
    let start = if reset then [] else st in
    write_storage (remove_all start (keys_where start (λ v. v == 0))) writes

unfoldable pub modify_account :
    MemAccount → Basic → Option (List ℕ) → List (ℕ × ℕ) → Bool → MemAccount
modify_account account basic code writes reset = record {
  nonce = basic.nonce;
  balance = basic.balance;
  storage = modify_storage account.storage writes reset;
  code = elim code [ some c ↦ c | none ↦ account.code ];
}

unfoldable pub is_empty : MemAccount → Bool
is_empty account = account.balance == 0 && account.nonce == 0 && length account.code == 0

-- One round of the loop `for apply in values`.
unfoldable pub apply_one : Bool → Accounts → Apply → Accounts
unfolding is_empty
apply_one delete_empty accounts (modify address basic code writes reset) =
    let account =
      modify_account (account_or_default (get accounts address)) basic code writes reset in
    let modified = insert accounts address account in
    if is_empty account && delete_empty then remove modified address else modified
apply_one delete_empty accounts (delete address) = remove accounts address

apply_values : Bool → Accounts → List Apply → Accounts
apply_values delete_empty accounts [] = accounts
apply_values delete_empty accounts (a ∷ values) =
    apply_values delete_empty (apply_one delete_empty accounts a) values

push_logs : List Log → List Log → List Log
push_logs logs [] = logs
push_logs logs (l ∷ more) = push_logs (push logs l) more

unfoldable pub apply : EthDbBackend → List Apply → List Log → Bool → EthDbBackend
unfolding apply_values push_logs
apply b values logs delete_empty = record b {
  accounts = apply_values delete_empty b.accounts values;
  info = record b.info { logs = push_logs b.info.logs logs };
}

balance_of : Option MemAccount → Basic
balance_of (some a) = record { balance = a.balance; nonce = a.nonce }
balance_of none = record { balance = 0; nonce = 0 }

-- `.get(&address).and_then(|x| x.storage.get(&index).cloned())`
unfoldable pub storage_entry : Accounts → ℕ → ℕ → Option ℕ
storage_entry accounts address index = elim (get accounts address) [
  | some a ↦ get a.storage index
  | none ↦ none
]

-- `impl Backend for EthDBBackend`: what the executor reads.
unfoldable pub view : EthDbBackend → Backend
unfolding balance_of storage_entry
view b = record {
  gas_price = b.gas_price;
  origin = b.sender;
  block_hash = λ number. 0;
  block_number = b.block.header.number;
  block_coinbase = b.block.header.author;
  block_timestamp = b.block.header.timestamp;
  block_difficulty = b.block.header.difficulty;
  block_gas_limit = b.block.header.gas_limit;
  chain_id = node_chain_id;
  exists = λ address. elim (get b.accounts address) [ some a ↦ true | none ↦ false ];
  basic = λ address. balance_of (get b.accounts address);
  code = λ address. elim (get b.accounts address) [ some a ↦ a.code | none ↦ [] ];
  storage =
      λ address index. elim (storage_entry b.accounts address index) [ some v ↦ v | none ↦ 0 ];
  original_storage = λ address index. storage_entry b.accounts address index;
}

module _ (E : Evm) where
  -- `EthDBBackend::call`
  unfoldable pub call : EthDbBackend → ℕ → ℕ → List ℕ → ExitReason × List ℕ × ℕ
  call b caller contract_address input =
      let run =
        E.call b.config (view b) contract_address input (some u64_max) true
          (record { address = contract_address; caller = caller; apparent_value = 0 }) in
      elim run.result [
        | exit reason v ↦ (reason, v, run.used_gas)
        | trap ↦ (succeed returned, [], run.used_gas)
      ]

  -- The `match to` of `execute`.
  unfoldable pub transact :
      EthDbBackend → ℕ → ℕ → Option ℕ → List ℕ → Executed (ExitReason × Option (List ℕ))
  transact b sender value (some h) input =
      let run = E.transact_call b.config (view b) sender h value input u64_max in
      record {
        result = (run.result.0, some run.result.1);
        used_gas = run.used_gas;
        values = run.values;
        logs = run.logs;
      }
  transact b sender value none input =
      let run = E.transact_create b.config (view b) sender value input u64_max in
      record {
        result = (run.result, none);
        used_gas = run.used_gas;
        values = run.values;
        logs = run.logs;
      }

  -- `EthDBBackend::execute`: the changes are applied only after a success.
  unfoldable pub execute :
      EthDbBackend → ℕ → ℕ → Option ℕ → List ℕ → EthDbBackend × (ExitReason × Option (List ℕ) × ℕ)
  unfolding transact
  execute b sender value to input =
      let run = transact b sender value to input in
      let after : EthDbBackend = elim run.result.0 [
        | succeed s ↦ apply b run.values run.logs false
        | _ ↦ b
      ] in
      (after, (run.result.0, run.result.1, run.used_gas))
