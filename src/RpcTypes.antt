-- ===== src/RpcTypes.antt =====
-- src/rpc_types.rs: the values that the RPC interface takes and returns.
pub mod Text
pub mod Json
use ethereum_prototype.Base.{ℕ, String, Bool, Option, none, some, List, [], length, Result}
use ethereum_prototype.Crates.Rlp.{Rlp}
use ethereum_prototype.Crates.Crypto.{Crypto}
use ethereum_prototype.Ethcore
use ethereum_prototype.Ethcore.{Header, Block}

-- `Bytes`, a wrapper of a vector.
pub record Bytes : Type 0 where
  pub content : List ℕ

abbrev pub into_vec : Bytes → List ℕ
into_vec b = b.content

-- `Rich<T>`
pub record Rich (T : Type 0) : Type 0 where
  pub inner : T
  pub extra_info : List (String × String)

pub data TransactionCondition : Type 0 where
  number : ℕ → TransactionCondition
  timestamp : ℕ → TransactionCondition

pub record RpcTransaction : Type 0 where
  pub hash : ℕ
  pub nonce : ℕ
  pub block_hash : Option ℕ
  pub block_number : Option ℕ
  pub transaction_index : Option ℕ
  pub from : ℕ
  pub to : Option ℕ
  pub value : ℕ
  pub gas_price : ℕ
  pub gas : ℕ
  pub input : Bytes
  pub creates : Option ℕ
  pub raw : Bytes
  pub public_key : Option ℕ
  pub chain_id : Option ℕ
  pub standard_v : ℕ
  pub v : ℕ
  pub r : ℕ
  pub s : ℕ
  pub condition : Option TransactionCondition

pub data BlockTransactions : Type 0 where
  hashes : List ℕ → BlockTransactions
  full : List RpcTransaction → BlockTransactions

pub record RpcBlock : Type 0 where
  pub hash : Option ℕ
  pub parent_hash : ℕ
  pub uncles_hash : ℕ
  pub author : ℕ
  pub miner : ℕ
  pub state_root : ℕ
  pub transactions_root : ℕ
  pub receipts_root : ℕ
  pub number : Option ℕ
  pub gas_used : ℕ
  pub gas_limit : ℕ
  pub extra_data : Bytes
  pub logs_bloom : Option ℕ
  pub timestamp : ℕ
  pub difficulty : ℕ
  pub total_difficulty : Option ℕ
  pub seal_fields : List Bytes
  pub uncles : List ℕ
  pub transactions : BlockTransactions
  pub size : Option ℕ

-- `From<&Header> for RpcBlock`
unfoldable pub block_of_header : Rlp → Crypto → Header → RpcBlock
block_of_header R C h = record {
  hash = some (Ethcore.hash R C h);
  parent_hash = h.parent_hash;
  uncles_hash = h.uncles_hash;
  author = h.author;
  miner = h.author;
  state_root = h.state_root;
  transactions_root = h.transactions_root;
  receipts_root = h.receipts_root;
  number = some h.number;
  gas_used = h.gas_used;
  gas_limit = h.gas_limit;
  extra_data = record { content = h.extra_data };
  logs_bloom = some h.log_bloom;
  timestamp = h.timestamp;
  difficulty = h.difficulty;
  total_difficulty = none;
  seal_fields = [];
  uncles = [];
  transactions = full [];
  size = some (length (Ethcore.rlp R h));
}

-- `From<&Block> for RpcBlock`
unfoldable pub block_of : Rlp → Crypto → Block → RpcBlock
unfolding block_of_header
block_of R C o = block_of_header R C o.header

pub record RpcLog : Type 0 where
  pub address : ℕ
  pub topics : List ℕ
  pub log_data : Bytes
  pub block_hash : Option ℕ
  pub block_number : Option ℕ
  pub transaction_hash : Option ℕ
  pub transaction_index : Option ℕ
  pub log_index : Option ℕ
  pub transaction_log_index : Option ℕ
  pub log_type : String
  pub removed : Bool

pub record RpcReceipt : Type 0 where
  pub transaction_hash : Option ℕ
  pub transaction_index : Option ℕ
  pub block_hash : Option ℕ
  pub from : Option ℕ
  pub to : Option ℕ
  pub block_number : Option ℕ
  pub cumulative_gas_used : ℕ
  pub gas_used : Option ℕ
  pub contract_address : Option ℕ
  pub logs : List RpcLog
  pub state_root : Option ℕ
  pub logs_bloom : ℕ
  pub status_code : Option ℕ

-- `RpcReceipt::default()`
abbrev pub default_receipt : RpcReceipt
default_receipt = record {
  transaction_hash = none;
  transaction_index = none;
  block_hash = none;
  from = none;
  to = none;
  block_number = none;
  cumulative_gas_used = 0;
  gas_used = none;
  contract_address = none;
  logs = [];
  state_root = none;
  logs_bloom = 0;
  status_code = none;
}

pub record Request : Type 0 where
  pub from : Option ℕ
  pub to : Option ℕ
  pub gas_price : Option ℕ
  pub gas : Option ℕ
  pub value : Option ℕ
  pub call_data : Option (List ℕ)
  pub nonce : Option ℕ

pub record CallRequest : Type 0 where
  pub from : Option ℕ
  pub to : Option ℕ
  pub gas_price : Option ℕ
  pub gas : Option ℕ
  pub value : Option ℕ
  pub call_data : Option Bytes
  pub nonce : Option ℕ

-- `req.data.map(|x| x.0)`
abbrev pub vec_of : Option Bytes → Option (List ℕ)
vec_of none = none
vec_of (some b) = some (into_vec b)

-- `Into<Request> for CallRequest`
unfoldable pub request_of : CallRequest → Request
request_of c = record {
  from = c.from;
  to = c.to;
  gas_price = c.gas_price;
  gas = c.gas;
  value = c.value;
  call_data = vec_of c.call_data;
  nonce = c.nonce;
}
