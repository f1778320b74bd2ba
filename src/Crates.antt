-- ===== src/Crates.antt =====
-- The crates that the program calls and whose code is not in the repository, each as a record of
-- operations that the models take as a parameter, with its documented behaviour as a record of
-- laws.
pub mod Rlp
pub mod Crypto
pub mod Evm
pub mod Hex
pub mod Serde
pub mod Json
pub mod JsonRpc
