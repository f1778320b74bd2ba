-- ===== src/Lib.antt =====
-- The Ethereum prototype node (src/*.rs): a chain of blocks in memory, one transaction to a block,
-- behind the JSON-RPC methods of Ethereum. Paths in these comments are from the repository's root.
--
-- The program's parts, and the files that model them:
--
--   * src/transaction.rs. Signature: the recovery bit and the chain id in `v`. Transaction: actions,
--     the message that is signed and its hash. Transaction/Unverified: signed transactions as they
--     travel, with `decode`, `rlp_append`, `chain_id`, `verify_basic`. Transaction/Signed: verified
--     transactions, `sign`, `SignedTransaction::new` (`new_signed`), `contract_address`.
--     Transaction/Pending: `TransactionInfo` and the cached sender of `LocalizedTransaction`.
--   * src/ethcore.rs. Ethcore: accounts, headers, blocks, the transaction root and the header's memo
--     of its hash. Ethcore/Action: its own copy of `Action`.
--   * src/db.rs. Backend: `EthDBBackend`, the view of the accounts that the executor reads (`view`)
--     and the changes that it applies (`apply`), with `call` and `execute`. Db: `HashMapEthDB`.
--     Operations that change the database return the changed one.
--   * src/rpc_types.rs. RpcTypes: the records of requests and replies. RpcTypes/Text: `Bytes` as text.
--     RpcTypes/Json: `Rich` and `BlockTransactions` as JSON.
--   * src/runtime.rs and src/rpc.rs. Rpc/Runtime: the lock around the database, and what a panic
--     under it leaves. Rpc/BlockNumber: how a request names a block, and Rpc/Visitor: how the name is
--     read. Rpc/Eth: the methods. Rpc/Eth/Steps: what any number of threads may do to the runtime, as
--     a relation on runtimes; a step is a section under the write lock. Rpc/Eth/Named: the block that
--     a request names, by the list of blocks alone. Rpc/Service: the traits, with the names, the
--     parameters and the answers of the methods; Rpc/Service/Dispatch: a request.
--   * src/middleware.rs. Middleware: the counter that every request passes.
--   * src/main.rs. Main: the server with its table of methods, its start, and requests in a row.
--     Main/Requests: requests by name. Main/Wallet: a wallet at the server. Main/Lasting: requests of
--     any kind, those that panic included.
--   * The crates that are called (rlp, keccak-hash, parity-crypto, evm, hex, serde, serde_json,
--     jsonrpc-core). Crates: a record of operations for each, a parameter of the models, and a
--     record `IsLawful` with the documented behaviour that a theorem may ask for. The files Sample
--     are instances for the concrete runs.
--
-- Base is what all of them share: the library's names, Boolean tests, lists and maps over the native
-- numbers, `Result` for `Result`, and `Outcome` for code that may panic. A map is an association
-- list. Hashes, addresses and keys are the numbers that their bytes write; `u64` arithmetic wraps at
-- 2^64 (a debug build panics there). The clock is an argument, `none` being a time before 1970. No
-- function of the program has fuel: all recursion is on lists. Only the digits that Rpc/Visitor/Written
-- writes have it, sixteen of them, which are enough below 2^64. Tests holds the concrete runs.
--
-- Not modelled: `start_http` and the socket address of `main` (input and output), the JSON forms that
-- serde derives, which read the parameters of a request and write its answer, and log output.
pub mod Base
pub mod Crates
pub mod Signature
pub mod Transaction
pub mod Ethcore
pub mod Backend
pub mod RpcTypes
pub mod Db
pub mod Rpc
pub mod Middleware
pub mod Main
mod Tests
