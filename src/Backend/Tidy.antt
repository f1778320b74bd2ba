-- ===== src/Backend/Tidy.antt =====
-- src/db.rs, `apply`: storage maps without an entry whose value is zero.
use ethereum_prototype.Base.{ℕ, ◌≢◌, zero, suc, Bool, some, List, [], ◌∷◌, if◌then◌else◌, arith}
use ethereum_prototype.Base.Map.{get}
use ethereum_prototype.Crates.Evm.{Apply, modify, delete, Log}
use ethereum_prototype.Backend.{
  Accounts, EthDbBackend, account_or_default, modify_account, apply_one, apply_values, apply,
  storage_entry,
}
use ethereum_prototype.Backend.Storage.{value_of, entry_of, last_write, get-modify_storage}
use ethereum_prototype.Backend.Accounts.{get-apply_one}

-- No slot is kept under the value zero.
abbrev pub IsTidy : Accounts → Type 0
IsTidy accounts = (address slot : ℕ) → storage_entry accounts address slot ≢ some 0

entry_of-ne-zero : (n : ℕ) → entry_of n ≢ some 0
entry_of-ne-zero zero e = cc
entry_of-ne-zero (suc n) e = ground arith

apply_one-IsTidy :
    (delete_empty : Bool) (accounts : Accounts) (a : Apply)
    → IsTidy accounts
    → IsTidy (apply_one delete_empty accounts a)
unfolding storage_entry modify_account
apply_one-IsTidy delete_empty accounts (delete address) h other slot =
    ground (arith, h other slot, get-apply_one delete_empty accounts (delete address) other)
apply_one-IsTidy delete_empty accounts (modify address basic code writes reset) h other slot =
    let account = account_or_default (get accounts address) in
    let last = last_write writes slot (if reset then 0 else value_of (get account.storage slot)) in
    ground (
      arith,
      h other slot,
      get-apply_one delete_empty accounts (modify address basic code writes reset) other,
      get-modify_storage account.storage writes reset slot,
      entry_of-ne-zero last,
    )

apply_values-IsTidy :
    (delete_empty : Bool) (values : List Apply) (accounts : Accounts)
    → IsTidy accounts
    → IsTidy (apply_values delete_empty accounts values)
unfolding apply_values
apply_values-IsTidy delete_empty [] accounts h = h
apply_values-IsTidy delete_empty (a ∷ values) accounts h =
    apply_values-IsTidy delete_empty values (apply_one delete_empty accounts a)
      (apply_one-IsTidy delete_empty accounts a h)

pub apply-IsTidy :
    (b : EthDbBackend) (values : List Apply) (logs : List Log) (delete_empty : Bool)
    → IsTidy b.accounts
    → IsTidy (apply b values logs delete_empty).accounts
unfolding apply
apply-IsTidy b values logs delete_empty h = apply_values-IsTidy delete_empty values b.accounts h
