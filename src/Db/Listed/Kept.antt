-- ===== src/Db/Listed/Kept.antt =====
-- src/db.rs, `new`, `submit_tx`, `estimate_gas` and `receipt`: the transactions of the blocks and
-- those with information.
use mathlib.Core.Path.{subst}
use ethereum_prototype.Base.{
  ℕ, zero, suc, ◌≤◌, ◌≡◌, refl, sym, ap, ◌∙◌, ◌↔◌, inl, inr, Option, some, List, [], ◌∷◌, length,
  get_elem?, Result, ok, err, ret, String, arith, ret-injective,
}
use ethereum_prototype.Base.Map.{get-nil}
use ethereum_prototype.Crates.Rlp.{Rlp}
use ethereum_prototype.Crates.Crypto.{Crypto}
use ethereum_prototype.Crates.Evm.{Evm, ExitReason}
use ethereum_prototype.Signature.{u64_mod}
use ethereum_prototype.Transaction.Signed.{SignedTransaction}
use ethereum_prototype.Transaction.Pending.{TransactionInfo}
use ethereum_prototype.Ethcore.{Block}
use ethereum_prototype.RpcTypes.{RpcReceipt}
use ethereum_prototype.Db.{HashMapEthDb, submit_tx, receipt, estimate_gas, new}
use ethereum_prototype.Db.Valid.{IsValid}
use ethereum_prototype.Db.Valid.Init.{genesis, new-IsValid}
use ethereum_prototype.Db.Submission.{submit_tx_ok, submit_tx_total, Submitted}
use ethereum_prototype.Db.Queries.{estimate_gas_blocks, estimate_gas_infos}
use ethereum_prototype.Db.Receipts.{receipt_lem}
use ethereum_prototype.Db.Listed.{Holds, IsListed, store_block-IsListed}

module _ (R : Rlp) (C : Crypto) where
  -- A database with the same blocks and the same information.
  same_blocks-Holds :
      {db db' : HashMapEthDb} {h : ℕ} → db'.blocks ≡ db.blocks → Holds R C db h → Holds R C db' h
  same_blocks-Holds blocks p = record {
    i = p.i;
    block = p.block;
    tx = p.tx;
    at = rw blocks p.at;
    alone = p.alone;
    hashed = p.hashed;
  }

  same-IsListed :
      {db db' : HashMapEthDb}
      → db'.blocks ≡ db.blocks
      → db'.infos ≡ db.infos
      → IsListed R C db
      → IsListed R C db'
  unfolding same_blocks-Holds
  same-IsListed blocks infos l = record {
    first = λ b e. l.first b (rw blocks at e);
    single = λ i b e. l.single i b (rw blocks at e);
    listed = λ h p.
        let (info, known) = l.listed h (same_blocks-Holds (sym blocks) p) in (info, rw infos known);
    placed = λ h info e.
        let p = l.placed h info (rw infos at e) in
        record { place = same_blocks-Holds blocks p.place; held = p.held; named = p.named };
  }

  pub submit_tx-IsListed :
      (E : Evm) (db : HashMapEthDb) (tx : SignedTransaction) (timestamp : ℕ) {db' : HashMapEthDb}
      (r : Result String (Unit {0}))
      → IsValid R C db
      → IsListed R C db
      → submit_tx R C E db tx (some timestamp) ≡ ret (db', r)
      → IsListed R C db'
  submit_tx-IsListed E db tx timestamp (ok done) v l h =
      let (best, accounts, p, q, same) = submit_tx_ok R C E db v tx timestamp h in
      subst (IsListed R C) same (store_block-IsListed R C tx timestamp E db v l best accounts)
  submit_tx-IsListed E db tx timestamp (err e) v l h =
      let (d, r, run, v', sub) = submit_tx_total R C E db v tx timestamp in
      let same = subst (λ x. Submitted R C E db tx x.0 x.1) (ret-injective (sym run ∙ h)) sub in
      subst (IsListed R C) (sym same) l

  pub estimate_gas-IsListed :
      (E : Evm) (db : HashMapEthDb) (n caller value : ℕ) (to : Option ℕ) (input : List ℕ)
      {db' : HashMapEthDb} {r : ExitReason × List ℕ × ℕ}
      → IsListed R C db
      → estimate_gas E db n caller value to input ≡ ret (db', r)
      → IsListed R C db'
  estimate_gas-IsListed E db n caller value to input l h =
      same-IsListed (estimate_gas_blocks E db n caller value to input h)
        (estimate_gas_infos E db n caller value to input h) l

  alone_empty :
      (first : Block) (i : ℕ) (b : Block)
      → first.transactions ≡ []
      → get_elem? (first ∷ []) i ≡ some b
      → b.transactions ≡ []
  alone_empty first zero b empty e = cc (empty, e)
  alone_empty first (suc i) b empty e = cc

  -- A database with one block, which is empty, that knows no transaction.
  alone-IsListed :
      (db : HashMapEthDb) (first : Block)
      → db.blocks ≡ first ∷ []
      → first.transactions ≡ []
      → db.infos ≡ []
      → IsListed R C db
  alone-IsListed db first blocks empty infos = record {
    first = λ b e. alone_empty first 0 b empty (rw blocks at e);
    single = λ i b e. absurd (cc (rw blocks at e));
    listed = λ h p. absurd (cc (alone_empty first p.i p.block empty (rw blocks at p.at), p.alone));
    placed = λ h info e. absurd (cc (rw infos at e, get-nil {V = TransactionInfo} h));
  }

  new-infos :
      (timestamp : ℕ) {db : HashMapEthDb} → new R C (some timestamp) ≡ ret db → db.infos ≡ []
  unfolding new
  new-infos timestamp h = ap (λ (d : HashMapEthDb). d.infos) (sym (ret-injective h))

  -- A new database.
  pub new-IsListed :
      (timestamp : ℕ) {db : HashMapEthDb} → new R C (some timestamp) ≡ ret db → IsListed R C db
  new-IsListed timestamp {db} made =
      let (db', made', v, blocks, accounts) = new-IsValid R C timestamp in
      let same : db' ≡ db = ret-injective (sym made' ∙ made) in
      alone-IsListed db (genesis R C timestamp)
        (ap (λ (d : HashMapEthDb). d.blocks) (sym same) ∙ blocks) refl (new-infos timestamp made)

  -- On a valid database of at most 2^64 blocks whose information is that of its blocks, a hash has
  -- a receipt exactly if some block holds a transaction with that hash.
  pub receipt-Holds_iff :
      (db : HashMapEthDb)
      → IsValid R C db
      → IsListed R C db
      → length db.blocks ≤ u64_mod
      → (h : ℕ) → ((r : RpcReceipt) × (receipt R C db h ≡ ret (some r))) ↔ Holds R C db h
  receipt-Holds_iff db v l small h = elim (receipt_lem R C db v small h) [
    | inl (unknown, found) ↦ (
      λ (r, e). absurd (ground arith),
      λ p. let (info, known) = l.listed h p in absurd (ground arith),
    )
    | inr (info, tx, b, known, held, at_hash, at, block_hash, found) ↦
        (λ e. (l.placed h info known).place, λ p. (_, found))
  ]
