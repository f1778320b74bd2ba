-- ===== src/Rpc/Service.antt =====
-- src/rpc.rs, the traits `Web3`, `Net` and `Eth`: the methods, the names that requests call them
-- by, their parameters and answers, and the handler that stands behind each.
pub mod Table
pub mod Healthy
pub mod Answers
pub mod Calls
pub mod Estimates
pub mod Dispatch
pub mod Moves
use ethereum_prototype.Base.{ℕ, String, Bool, Option, List, [], ◌∷◌, ◌++◌, ret}
use ethereum_prototype.Crates.Rlp.{Rlp}
use ethereum_prototype.Crates.Crypto.{Crypto}
use ethereum_prototype.Crates.Evm.{Evm}
use ethereum_prototype.RpcTypes.{Bytes, Rich, RpcBlock, RpcReceipt, CallRequest}
use ethereum_prototype.Db.{Clock}
use ethereum_prototype.Rpc.BlockNumber.{BlockNumber}
use ethereum_prototype.Rpc.Runtime.{Runtime, Reply}
use ethereum_prototype.Rpc.Eth

pub data Method : Type 0 where
  -- `Web3`
  client_version sha3 : Method
  -- `Net`
  version peer_count is_listening : Method
  -- `Eth`
  protocol_version author syncing is_mining chain_id gas_price accounts : Method
  block_number send_raw_transaction call hashrate balance block_by_number : Method
  estimate_gas transaction_count transaction_receipt : Method

-- `#[rpc(name = "..")]`
unfoldable pub name_of : Method → String
name_of client_version = "web3_clientVersion"
name_of sha3 = "web3_sha3"
name_of version = "net_version"
name_of peer_count = "net_peerCount"
name_of is_listening = "net_listening"
name_of protocol_version = "eth_protocolVersion"
name_of author = "eth_coinbase"
name_of syncing = "eth_syncing"
name_of is_mining = "eth_mining"
name_of chain_id = "eth_chainId"
name_of gas_price = "eth_gasPrice"
name_of accounts = "eth_accounts"
name_of block_number = "eth_blockNumber"
name_of send_raw_transaction = "eth_sendRawTransaction"
name_of call = "eth_call"
name_of hashrate = "eth_hashrate"
name_of balance = "eth_getBalance"
name_of block_by_number = "eth_getBlockByNumber"
name_of estimate_gas = "eth_estimateGas"
name_of transaction_count = "eth_getTransactionCount"
name_of transaction_receipt = "eth_getTransactionReceipt"

-- The methods of each trait, in the order of the source.
abbrev pub web3_methods : List Method
web3_methods = client_version ∷ sha3 ∷ []

abbrev pub net_methods : List Method
net_methods = version ∷ peer_count ∷ is_listening ∷ []

abbrev pub eth_methods : List Method
eth_methods =
    protocol_version ∷ author ∷ syncing ∷ is_mining ∷ chain_id ∷ gas_price ∷ accounts ∷ block_number
    ∷ send_raw_transaction ∷ call ∷ hashrate ∷ balance ∷ block_by_number ∷ estimate_gas
    ∷ transaction_count ∷ transaction_receipt ∷ []

-- The parameters of a method.
abbrev pub Params : Method → Type 0
Params sha3 = Bytes
Params send_raw_transaction = Bytes
Params call = CallRequest × Option BlockNumber
Params balance = ℕ × Option BlockNumber
Params block_by_number = BlockNumber × Bool
Params estimate_gas = CallRequest × Option BlockNumber
Params transaction_count = ℕ × Option BlockNumber
Params transaction_receipt = ℕ
Params _ = Unit {0}

-- What a method answers with after a success.
abbrev pub Answer : Method → Type 0
Answer client_version = String
Answer version = String
Answer is_listening = Bool
Answer protocol_version = String
Answer syncing = Bool
Answer is_mining = Bool
Answer chain_id = Option ℕ
Answer accounts = List ℕ
Answer call = Bytes
Answer block_by_number = Option (Rich RpcBlock)
Answer transaction_receipt = Option RpcReceipt
Answer _ = ℕ

module _ (R : Rlp) (C : Crypto) (E : Evm) (others : Runtime → Runtime) (now : Clock) where
  -- The method itself, on the runtime: `others` is what other threads do between two locks.
  unfoldable pub handle : (m : Method) → Params m → Runtime → Runtime × Reply (Answer m)
  handle client_version p rt = (rt, ret Eth.client_version)
  handle sha3 p rt = (rt, ret (Eth.sha3 C p))
  handle version p rt = (rt, ret Eth.version)
  handle peer_count p rt = (rt, ret Eth.peer_count)
  handle is_listening p rt = (rt, ret Eth.is_listening)
  handle protocol_version p rt = (rt, ret Eth.protocol_version)
  handle author p rt = (rt, ret Eth.author)
  handle syncing p rt = (rt, ret Eth.syncing)
  handle is_mining p rt = (rt, ret Eth.is_mining)
  handle chain_id p rt = (rt, ret Eth.chain_id)
  handle gas_price p rt = (rt, ret Eth.gas_price)
  handle accounts p rt = (rt, ret Eth.accounts)
  handle block_number p rt = (rt, Eth.block_number rt)
  handle send_raw_transaction raw rt = Eth.send_raw_transaction R C E now rt raw
  handle call (req, number) rt = Eth.call others E rt req number
  handle hashrate p rt = (rt, ret Eth.hashrate)
  handle balance (address, number) rt = (rt, Eth.balance others rt address number)
  handle block_by_number (number, full) rt = (rt, Eth.block_by_number R C rt number full)
  handle estimate_gas (req, number) rt = Eth.estimate_gas others E rt req number
  handle transaction_count (k, number) rt = (rt, Eth.transaction_count others rt k number)
  handle transaction_receipt h rt = (rt, Eth.transaction_receipt R C rt h)
