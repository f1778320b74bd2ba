-- ===== src/Tests/Accounts.antt =====
-- Changes of accounts, and runs of the executor.
use ethereum_prototype.Base.{
  ℕ, ◌≡◌, refl, true, false, none, some, List, [], ◌∷◌, ◌++◌, if◌then◌else◌, inl,
}
use ethereum_prototype.Base.Map.{Map, get, insert}
use ethereum_prototype.Crates.Evm.{Apply, modify, delete}
use ethereum_prototype.Ethcore.{default_header, compute_hash, rlp}
use ethereum_prototype.Ethcore.Hashes.{IsFresh, compute_hash-IsFresh}
use ethereum_prototype.Backend.{EthDbBackend, modify_storage, apply, execute}
use ethereum_prototype.Backend.Storage.{value_of, entry_of, last_write, get-modify_storage}
use ethereum_prototype.Backend.Accounts.{world, changes, apply_lem}
use ethereum_prototype.Backend.Tidy.{IsTidy}
use ethereum_prototype.Backend.Runs.{execute-IsTidy}
use ethereum_prototype.Db.Valid.Init.{genesis}
use ethereum_prototype.Db.Valid.Submit.{start_backend}
use ethereum_prototype.Tests.Fixtures.{codec, crypto, evm, signed, db0, db0-IsValid}

abbrev slots : Map ℕ
slots = insert (insert [] 1 11) 2 22

get-modify_storage_example :
    get (modify_storage slots ((1, 0) ∷ (3, 5) ∷ (1, 7) ∷ []) false) 1
    ≡ entry_of
        (last_write ((1, 0) ∷ (3, 5) ∷ (1, 7) ∷ []) 1 (if false then 0 else value_of (get slots 1)))
get-modify_storage_example = get-modify_storage slots ((1, 0) ∷ (3, 5) ∷ (1, 7) ∷ []) false 1

-- The backend of the transfer, over the genesis block.
abbrev start : EthDbBackend
start = start_backend codec crypto signed 101 db0 (genesis codec crypto 100) []

abbrev some_changes : List Apply
some_changes =
    modify 4 (record { balance = 6; nonce = 1 }) (some (9 ∷ [])) ((1, 5) ∷ (1, 0) ∷ []) true
    ∷ delete 4
    ∷ modify 5 (record { balance = 2; nonce = 0 }) none [] false
    ∷ []

apply_lem_example :
    (world (apply start some_changes [] false) ≡ changes (world start) some_changes)
    × ((apply start some_changes [] false).info.logs ≡ start.info.logs ++ [])
apply_lem_example = apply_lem start some_changes []

abbrev empty_change : Apply
empty_change = modify 4 (record { balance = 0; nonce = 0 }) none [] false

start-IsTidy : IsTidy start.accounts
start-IsTidy = db0-IsValid.tidy 0 [] refl

execute-IsTidy_example : IsTidy (execute evm start 1003 5 (some 42) (8 ∷ [])).0.accounts
execute-IsTidy_example = execute-IsTidy evm start 1003 5 (some 42) (8 ∷ []) start-IsTidy

compute_hash-IsFresh_example :
    IsFresh codec crypto (compute_hash codec crypto (default_header crypto)).0
    × ((compute_hash codec crypto (default_header crypto)).1
        ≡ crypto.keccak (rlp codec (default_header crypto)))
    × (rlp codec (compute_hash codec crypto (default_header crypto)).0
        ≡ rlp codec (default_header crypto))
    × (compute_hash codec crypto (compute_hash codec crypto (default_header crypto)).0
        ≡ compute_hash codec crypto (default_header crypto))
compute_hash-IsFresh_example = compute_hash-IsFresh codec crypto (default_header crypto) (inl refl)
