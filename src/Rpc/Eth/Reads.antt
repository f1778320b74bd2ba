-- ===== src/Rpc/Eth/Reads.antt =====
-- What the reading methods answer: the best block, balances and counts of transactions.
use ethereum_prototype.Base.{
  ℕ, ◌+◌, ◌-◌, ◌%◌, String, ap, ◌∙◌, unwrap, ◌≤◌, ◌≡◌, refl, false, Bool, Option, some, [],
  get_elem?, get_last?, get_elem?-of_lt, get_elem?-of_le, get_last?-of_pos, get_last?-get_elem?,
  length, ok, err, ret, arith,
}
use ethereum_prototype.Base.Map.{get}
use ethereum_prototype.Crates.Rlp.{Rlp}
use ethereum_prototype.Crates.Crypto.{Crypto}
use ethereum_prototype.Crates.Evm.{Evm}
use ethereum_prototype.Signature.{u64_mod}
use ethereum_prototype.Ethcore.{Block}
use ethereum_prototype.RpcTypes.{block_of}
use ethereum_prototype.Backend.{Accounts, account_or_default}
use ethereum_prototype.Db.{HashMapEthDb, best_block, best_number}
use ethereum_prototype.Db.Valid.{IsValid}
use ethereum_prototype.Rpc.BlockNumber.{BlockNumber, num, parse_number}
use ethereum_prototype.Rpc.Runtime.{Runtime, with_db}
use ethereum_prototype.Rpc.Eth.{
  block_number, block_by_number, balance, transaction_count, parse_locked,
}
use ethereum_prototype.Rpc.Eth.Steps.{Reach}
use ethereum_prototype.Rpc.Eth.Named.{Names, parse_number-Names, state_at}

module _ (R : Rlp) (C : Crypto) where
  best_lem :
      (db : HashMapEthDb)
      → IsValid R C db
      → length db.blocks ≤ u64_mod
      → (best : Block) × (get_last? db.blocks ≡ some best)
        × (best_block db ≡ ret best)
        × (best_number db ≡ best.header.number)
  unfolding best_block best_number
  best_lem db v small =
      let (best, last) = get_last?-of_pos db.blocks v.chain.pos in
      let i = length db.blocks - 1 in
      let at = get_last?-get_elem? db.blocks last i (omega (arith, v.chain.pos)) in
      let e : (length db.blocks + u64_mod - 1) % u64_mod ≡ i = omega (arith, v.chain.pos) in
      (
        best,
        last,
        ap unwrap (ap (get_elem? db.blocks) e ∙ at),
        omega (arith, v.chain.number i best at, v.chain.pos),
      )

  -- With a lock that is not poisoned and a valid database of at most 2^64 blocks,
  -- `eth_getBlockByNumber` answers with the last block, whatever number it is asked for, and
  -- `eth_blockNumber` with the number of that block.
  pub block_by_number_lem :
      (rt : Runtime)
      → rt.poisoned ≡ false
      → IsValid R C rt.eth_db
      → length rt.eth_db.blocks ≤ u64_mod
      → (best : Block) × (get_last? rt.eth_db.blocks ≡ some best)
        × (block_number rt ≡ ret (ok best.header.number))
        × ((number : BlockNumber) (full : Bool)
            → block_by_number R C rt number full
              ≡ ret (ok (some (record { inner = block_of R C best; extra_info = [] }))))
  unfolding block_number block_by_number
  block_by_number_lem rt up v small =
      let (best, last, found, numbered) = best_lem rt.eth_db v small in
      (best, last, ground arith, λ number full. ground arith)

module _ (R : Rlp) (C : Crypto) (E : Evm) (others : Runtime → Runtime) (rt : Runtime)
    (up : rt.poisoned ≡ false) (still_up : (others rt).poisoned ≡ false) (address : ℕ) where
  parse_locked_ok :
      (number : Option BlockNumber) (message : String) {n : ℕ}
      → parse_number number rt.eth_db ≡ ok n
      → parse_locked rt number message ≡ ok n
  unfolding parse_locked
  parse_locked_ok number message h = rw (up, parse_locked) (rw h refl)

  balance_at :
      (number : Option BlockNumber) {n : ℕ} {states : Accounts}
      → parse_number number rt.eth_db ≡ ok n
      → get_elem? (others rt).eth_db.accounts n ≡ some states
      → (balance others rt address number
          ≡ ret (ok (account_or_default (get states address)).balance))
        × (transaction_count others rt address number
            ≡ ret (ok (account_or_default (get states address)).nonce))
  unfolding balance transaction_count with_db
  balance_at number {n} {states} h at = (
    ground (arith, parse_locked_ok number "parse block number failed" h),
    ground (arith, parse_locked_ok number "parse number failed" h),
  )

  -- With a lock that is not poisoned at either time, and on a valid database of at most 2^64
  -- blocks, for the block that a request names, `eth_getBalance` and `eth_getTransactionCount`
  -- answer with the balance and the nonce of the account after that block, zero if it has no entry,
  -- whatever requests other threads serve between their two locks. The block named is the last one
  -- for `latest`, `pending` and no number, the first one for `earliest`, the last one with the hash
  -- for a hash, and the one at that place, which there is, for a number.
  pub balance_named :
      IsValid R C rt.eth_db
      → (number : Option BlockNumber) (n : ℕ) → length rt.eth_db.blocks ≤ u64_mod
      → Reach R C E rt (others rt)
      → Names R C rt.eth_db.blocks number n
      → (states : Accounts) × (get_elem? (others rt).eth_db.accounts n ≡ some states)
        × (balance others rt address number
            ≡ ret (ok (account_or_default (get states address)).balance))
        × (transaction_count others rt address number
            ≡ ret (ok (account_or_default (get states address)).nonce))
  balance_named v number n small reach named =
      let parsed = parse_number-Names R C rt.eth_db v small number n named in
      let there = state_at R C E others rt v reach number n named in
      let (states, at) = get_elem?-of_lt (others rt).eth_db.accounts n there in
      let (b, c) = balance_at number parsed at in (states, at, b, c)

  -- With a lock that is not poisoned at either time, for an explicit number that is not below the
  -- number of states, `eth_getBalance` answers with an
  -- error, and `eth_getTransactionCount` with zero.
  pub balance_past_end :
      (n : ℕ)
      → length (others rt).eth_db.accounts ≤ n
      → (balance others rt address (some (num n)) ≡ ret (err "invalid block number"))
        × (transaction_count others rt address (some (num n)) ≡ ret (ok 0))
  unfolding balance transaction_count with_db parse_number
  balance_past_end n past =
      let missing = get_elem?-of_le (others rt).eth_db.accounts n past in
      (
        ground (arith, missing, parse_locked_ok (some (num n)) "parse block number failed" refl),
        ground (arith, missing, parse_locked_ok (some (num n)) "parse number failed" refl),
      )
