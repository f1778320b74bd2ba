-- ===== src/Db/Listed.antt =====
-- src/db.rs, `HashMapEthDB`: what the blocks hold of transactions, against what `infos` knows of
-- them, and `submit_tx` on both.
pub mod Kept
use mathlib.Core.Path.{subst}
use ethereum_prototype.Base.{
  ℕ, suc, ◌≤◌, ◌<◌, ◌≡◌, refl, sym, ap, ◌∙◌, ◌↔◌, inl, inr, none, some, List, [], ◌∷◌, length,
  get_elem?, get_elem?-push, get_elem?-push_inv, get_elem?-lt, get_last?, ok, err, ret, arith,
  String, Result, Option,
}
use ethereum_prototype.Base.Map.{get, get-nil, get-insert_inv, get-insert_self, get-insert_keeps}
use ethereum_prototype.Crates.Rlp.{Rlp}
use ethereum_prototype.Crates.Crypto.{Crypto}
use ethereum_prototype.Crates.Evm.{Evm, ExitReason}
use ethereum_prototype.Signature.{u64_mod}
use ethereum_prototype.Transaction.Signed.{SignedTransaction}
use ethereum_prototype.Transaction.Pending.{TransactionInfo}
use ethereum_prototype.Ethcore.{Block, hash}
use ethereum_prototype.RpcTypes.{RpcReceipt}
use ethereum_prototype.Backend.{Accounts}
use ethereum_prototype.Db.{HashMapEthDb, submit_tx, receipt, store_block, estimate_gas}
use ethereum_prototype.Db.Valid.{IsValid}
use ethereum_prototype.Db.Valid.Submit.{block_after, db_after, run_after, run_keeps}
use ethereum_prototype.Db.Submission.{submit_tx_ok}
use ethereum_prototype.Db.Receipts.{receipt_lem, receipt_in}

module _ (R : Rlp) (C : Crypto) (db : HashMapEthDb) where
  -- A block holds the transaction with this hash, and no other.
  pub record Holds (h : ℕ) : Type 0 where
    pub i : ℕ
    pub block : Block
    pub tx : SignedTransaction
    pub at : get_elem? db.blocks i ≡ some block
    pub alone : block.transactions ≡ tx ∷ []
    pub hashed : tx.transaction.hash ≡ h

  -- The information of a transaction is that of a block which holds it.
  pub record IsPlaced (h : ℕ) (info : TransactionInfo) : Type 0 where
    pub place : Holds h
    pub held : info.transaction ≡ some place.tx
    pub named : hash R C place.block.header ≡ info.block_hash

  pub record IsListed : Type 0 where
    -- the first block is empty, every other one holds one transaction
    pub first : (b : Block) → get_elem? db.blocks 0 ≡ some b → b.transactions ≡ []
    pub single :
        (i : ℕ) (b : Block)
        → get_elem? db.blocks (suc i) ≡ some b
        → (tx : SignedTransaction) × (b.transactions ≡ tx ∷ [])
    pub listed : (h : ℕ) → Holds h → (info : TransactionInfo) × (get db.infos h ≡ some info)
    pub placed : (h : ℕ) (info : TransactionInfo) → get db.infos h ≡ some info → IsPlaced h info

module _ (R : Rlp) (C : Crypto) (tx : SignedTransaction) (timestamp : ℕ) (E : Evm)
    (db : HashMapEthDb) (v : IsValid R C db) (l : IsListed R C db) (best : Block)
    (accounts : Accounts) where
  abbrev block : Block
  block = block_after R C tx timestamp best

  abbrev after : HashMapEthDb
  after = db_after R C tx timestamp E db best accounts

  abbrev stored : TransactionInfo
  stored = record (run_after R C tx timestamp E db best accounts).0.info {
    result = (run_after R C tx timestamp E db best accounts).1.1;
  }

  new_place : Holds R C after tx.transaction.hash
  unfolding store_block
  new_place = record {
    i = length db.blocks;
    block = block;
    tx = tx;
    at = ground (arith, get_elem?-push db.blocks block (length db.blocks));
    alone = refl;
    hashed = refl;
  }

  old_place : (h : ℕ) → Holds R C db h → Holds R C after h
  unfolding store_block
  old_place h p = record {
    i = p.i;
    block = p.block;
    tx = p.tx;
    at = ground (arith, get_elem?-push db.blocks block p.i, get_elem?-lt db.blocks p.i p.at);
    alone = p.alone;
    hashed = p.hashed;
  }

  after_first : (b : Block) → get_elem? after.blocks 0 ≡ some b → b.transactions ≡ []
  unfolding store_block
  after_first b e = elim (get_elem?-push_inv db.blocks block 0 e) [
    | inl (here, same) ↦ absurd (omega (arith, v.chain.pos))
    | inr old ↦ l.first b old
  ]

  after_single :
      (i : ℕ) (b : Block)
      → get_elem? after.blocks (suc i) ≡ some b
      → (tx : SignedTransaction) × (b.transactions ≡ tx ∷ [])
  unfolding store_block
  after_single i b e = elim (get_elem?-push_inv db.blocks block (suc i) e) [
    | inl (here, same) ↦ (tx, ap (λ (b : Block). b.transactions) (sym same))
    | inr old ↦ l.single i b old
  ]

  after_known :
      (h : ℕ) → Holds R C after h → (info : TransactionInfo) × (get after.infos h ≡ some info)
  unfolding store_block
  after_known h p = elim (get_elem?-push_inv db.blocks block p.i p.at) [
    | inl (here, same) ↦
        let same_tx : tx ≡ p.tx = cc (ap (λ (b : Block). b.transactions) same, p.alone) in
        let at_hash = ap (λ (t : SignedTransaction). t.transaction.hash) same_tx ∙ p.hashed in
        (
          stored,
          subst (λ j. get after.infos j ≡ some stored) at_hash
              (get-insert_self db.infos tx.transaction.hash stored),
        )
    | inr old ↦
        let known : Holds R C db h = record {
          i = p.i;
          block = p.block;
          tx = p.tx;
          at = old;
          alone = p.alone;
          hashed = p.hashed;
        } in
        let (info, found) = l.listed h known in
        get-insert_keeps db.infos tx.transaction.hash h stored found
  ]

  new-IsPlaced : IsPlaced R C after tx.transaction.hash stored
  unfolding new_place
  new-IsPlaced =
      let keeps = run_keeps R C tx timestamp E db best accounts in
      record { place = new_place; held = keeps.0; named = sym keeps.1 }

  after-IsPlaced :
      (h : ℕ) (info : TransactionInfo) → get after.infos h ≡ some info → IsPlaced R C after h info
  unfolding store_block old_place
  after-IsPlaced h info e = elim (get-insert_inv db.infos tx.transaction.hash h _ e) [
    | inl (here, same) ↦
        subst (λ j. IsPlaced R C after j info) here
          (subst (IsPlaced R C after tx.transaction.hash) same new-IsPlaced)
    | inr old ↦
        let p = l.placed h info old in
        record { place = old_place h p.place; held = p.held; named = p.named }
  ]

  pub store_block-IsListed : IsListed R C after
  store_block-IsListed = record {
    first = after_first;
    single = after_single;
    listed = after_known;
    placed = after-IsPlaced;
  }
