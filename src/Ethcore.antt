-- ===== src/Ethcore.antt =====
-- src/ethcore.rs: accounts, headers, blocks and their hashes. Its own `Action` is in
-- Ethcore/Action.
pub mod Hashes
pub mod Action
use ethereum_prototype.Base.{ℕ, Option, none, some, List, [], ◌∷◌, length}
use ethereum_prototype.Base.Map.{Map}
use ethereum_prototype.Crates.Rlp.{Rlp, RlpStream, begin_list, ◌◃◌, uint, bytes, fixed}
use ethereum_prototype.Crates.Crypto.{Crypto}
use ethereum_prototype.Transaction.Signed.{SignedTransaction}

-- The loop of `transaction_root`.
append_hashes : RlpStream → List SignedTransaction → RlpStream
unfolding ◌◃◌
append_hashes s [] = s
append_hashes s (t ∷ txs) = append_hashes (s ◃ fixed 32 t.transaction.hash) txs

unfoldable pub transaction_root : Rlp → Crypto → List SignedTransaction → ℕ
unfolding append_hashes begin_list
transaction_root R C txs = C.keccak (R.out (append_hashes (begin_list [] (length txs)) txs))

pub record MemAccount : Type 0 where
  pub nonce : ℕ
  pub balance : ℕ
  pub storage : Map ℕ
  pub code : List ℕ

-- `MemAccount::default()`
abbrev pub default_account : MemAccount
default_account = record { nonce = 0; balance = 0; storage = []; code = [] }

pub record Header : Type 0 where
  pub parent_hash : ℕ
  pub timestamp : ℕ
  pub number : ℕ
  pub author : ℕ
  pub transactions_root : ℕ
  pub uncles_hash : ℕ
  pub extra_data : List ℕ
  pub state_root : ℕ
  pub receipts_root : ℕ
  pub log_bloom : ℕ
  pub gas_used : ℕ
  pub gas_limit : ℕ
  pub difficulty : ℕ
  -- the memoised hash
  pub hash : Option ℕ

pub record Block : Type 0 where
  pub header : Header
  pub transactions : List SignedTransaction
  pub uncles : List Header

-- `Header::default()`
abbrev pub default_header : Crypto → Header
default_header C = record {
  parent_hash = 0;
  timestamp = 0;
  number = 0;
  author = 0;
  transactions_root = C.keccak_null_rlp;
  uncles_hash = C.keccak_empty_list_rlp;
  extra_data = [];
  state_root = C.keccak_null_rlp;
  receipts_root = C.keccak_null_rlp;
  log_bloom = 0;
  gas_used = 0;
  gas_limit = 0;
  difficulty = 0;
  hash = none;
}

unfoldable pub stream_rlp : Header → RlpStream → RlpStream
unfolding begin_list ◌◃◌
stream_rlp h s =
    begin_list s 13
    ◃ fixed 32 h.parent_hash
    ◃ fixed 32 h.uncles_hash
    ◃ fixed 20 h.author
    ◃ fixed 32 h.state_root
    ◃ fixed 32 h.transactions_root
    ◃ fixed 32 h.receipts_root
    ◃ fixed 256 h.log_bloom
    ◃ uint h.difficulty
    ◃ uint h.number
    ◃ uint h.gas_limit
    ◃ uint h.gas_used
    ◃ uint h.timestamp
    ◃ bytes h.extra_data

-- `h.rlp()`, and `h.rlp_bytes()`
unfoldable pub rlp : Rlp → Header → List ℕ
unfolding stream_rlp
rlp R h = R.out (stream_rlp h [])

unfoldable pub hash : Rlp → Crypto → Header → ℕ
hash R C h = elim h.hash [ some memo ↦ memo | none ↦ C.keccak (rlp R h) ]

-- `compute_hash` stores the hash in the header and returns it.
unfoldable pub compute_hash : Rlp → Crypto → Header → Header × ℕ
unfolding hash
compute_hash R C h = let digest = hash R C h in (record h { hash = some digest }, digest)
