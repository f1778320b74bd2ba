-- ===== src/Tests.antt =====
-- Concrete runs: for each result with hypotheses, an input at which they hold.
mod Fixtures
mod Transactions
mod Accounts
mod Chain
mod Server
mod Service
mod Receipts
mod Wallet
