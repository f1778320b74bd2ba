-- ===== src/Rpc/BlockNumber.antt =====
-- src/rpc.rs, `BlockNumber`: the ways to name a block, and the number that each stands for.
use ethereum_prototype.Base.{ℕ, String, Bool, Option, none, some, Result, ok, err}
use ethereum_prototype.Base.Map.{get}
use ethereum_prototype.Db.{HashMapEthDb, best_number}

pub data BlockNumber : Type 0 where
  -- hash, require_canonical
  hash : ℕ → Bool → BlockNumber
  num : ℕ → BlockNumber
  latest earliest pending : BlockNumber

abbrev pub default_number : BlockNumber
default_number = latest

abbrev number_or_default : Option BlockNumber → BlockNumber
number_or_default none = default_number
number_or_default (some n) = n

-- The `match` of `parse_number`.
number_in : BlockNumber → HashMapEthDb → Result String ℕ
number_in earliest db = ok 0
number_in (hash h require_canonical) db = elim (get db.hash_index h) [
  | some n ↦ ok n
  | none ↦ err "err"
]
number_in (num n) db = ok n
number_in pending db = ok (best_number db)
number_in latest db = ok (best_number db)

-- `EthClient::parse_number`
unfoldable pub parse_number : Option BlockNumber → HashMapEthDb → Result String ℕ
unfolding number_in best_number
parse_number number db = number_in (number_or_default number) db
