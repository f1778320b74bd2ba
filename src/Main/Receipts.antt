-- ===== src/Main/Receipts.antt =====
-- src/main.rs and src/rpc.rs: receipts from the start of the server on.
use mathlib.Core.Path.{subst}
use ethereum_prototype.Base.{
  ℕ, ◌≤◌, ◌≡◌, refl, ap, ◌↔◌, false, some, length, ok, ret, arith, ret-injective, Outcome-cases,
}
use ethereum_prototype.Crates.Rlp.{Rlp}
use ethereum_prototype.Crates.Crypto.{Crypto}
use ethereum_prototype.Crates.Evm.{Evm}
use ethereum_prototype.Signature.{u64_mod}
use ethereum_prototype.RpcTypes.{RpcReceipt}
use ethereum_prototype.Db.{receipt}
use ethereum_prototype.Db.Valid.{IsValid}
use ethereum_prototype.Db.Valid.Init.{new-IsValid}
use ethereum_prototype.Db.Listed.{Holds, IsListed}
use ethereum_prototype.Db.Listed.Kept.{new-IsListed, receipt-Holds_iff}
use ethereum_prototype.Rpc.Runtime.{Runtime, with_db}
use ethereum_prototype.Rpc.Eth.{transaction_receipt}
use ethereum_prototype.Rpc.Eth.Steps.{Reach, Reach-Served}
use ethereum_prototype.Rpc.Eth.Listing.{Reach-IsListed}
use ethereum_prototype.Main.{start}

module _ (R : Rlp) (C : Crypto) where
  start-IsListed :
      (timestamp : ℕ) {rt : Runtime}
      → start R C (some timestamp) ≡ ret rt
      → IsValid R C rt.eth_db × IsListed R C rt.eth_db
  unfolding start
  start-IsListed timestamp {rt} started =
      let (db, made, v, blocks, accounts) = new-IsValid R C timestamp in
      let same : db ≡ rt.eth_db =
        ap (λ (t : Runtime). t.eth_db) (ret-injective (rw made at started)) in
      subst (λ d. IsValid R C d × IsListed R C d) same (v, new-IsListed R C timestamp made)

  -- The method and the database give the same receipt.
  receipt_iff :
      (rt : Runtime) (h : ℕ) (r : RpcReceipt)
      → rt.poisoned ≡ false
      → (transaction_receipt R C rt h ≡ ret (ok (some r)))
        ↔ (receipt R C rt.eth_db h ≡ ret (some r))
  unfolding transaction_receipt with_db
  receipt_iff rt h r up = (
    λ e. ground (arith, Outcome-cases (receipt R C rt.eth_db h)),
    λ e. rw (up, e, transaction_receipt) refl,
  )

  module _ (E : Evm) (timestamp : ℕ) {rt later : Runtime}
      (started : start R C (some timestamp) ≡ ret rt) (served : Reach R C E rt later)
      (up : later.poisoned ≡ false) (small : length later.eth_db.blocks ≤ u64_mod) where
    -- Whatever requests are served from the start of the server on, in whatever order: while the
    -- lock is not poisoned and the database has at most 2^64 blocks, `eth_getTransactionReceipt`
    -- has a receipt for a hash exactly if some block holds a transaction with that hash.
    pub transaction_receipt-Holds_iff :
        (h : ℕ)
        → ((r : RpcReceipt) × (transaction_receipt R C later h ≡ ret (ok (some r))))
          ↔ Holds R C later.eth_db h
    transaction_receipt-Holds_iff h =
        let (v, l) = start-IsListed timestamp started in
        let v' = (Reach-Served R C E v served).kept.valid in
        let (to, from) =
          receipt-Holds_iff R C later.eth_db v' (Reach-IsListed R C E v l served) small h in
        (
          λ (r, e). to (r, (receipt_iff later h r up).0 e),
          λ p. let (r, e) = from p in (r, (receipt_iff later h r up).1 e),
        )
