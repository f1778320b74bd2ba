-- ===== src/Rpc/Service/Estimates.antt =====
-- src/rpc.rs, `estimate_gas`: what `eth_estimateGas` answers for a block that there is, and what it
-- leaves.
use ethereum_prototype.Base.{
  ℕ, ◌≤◌, ◌<◌, ◌≡◌, ◌∙◌, false, Option, some, length, get_elem?, get_elem?-of_lt, get_elem?-lt,
  get_last?, ok, ret, ◌==◌, if◌then◌else◌, arith,
}
use ethereum_prototype.Crates.Rlp.{Rlp}
use ethereum_prototype.Crates.Crypto.{Crypto}
use ethereum_prototype.Crates.Evm.{Evm}
use ethereum_prototype.Signature.{u64_mod}
use ethereum_prototype.Ethcore.{Block}
use ethereum_prototype.Backend.{Accounts, transact}
use ethereum_prototype.Backend.Runs.{succeeded}
use ethereum_prototype.RpcTypes.{CallRequest, vec_of}
use ethereum_prototype.Db.{HashMapEthDb, query_backend}
use ethereum_prototype.Db.Valid.{IsValid}
use ethereum_prototype.Db.Estimates.{Leaves, estimate_gas-Leaves}
use ethereum_prototype.Rpc.BlockNumber.{BlockNumber}
use ethereum_prototype.Rpc.Runtime.{Runtime, with_mut_db, with_mut_db_ret}
use ethereum_prototype.Rpc.Eth.{estimate_gas, estimate_locked, or_zero, or_nil}
use ethereum_prototype.Rpc.Eth.Named.{Names, Names-lt, parse_number-Names}
use ethereum_prototype.Rpc.Service.Healthy.{Healthy}
use ethereum_prototype.Rpc.Service.Calls.{parse_locked_ok}

module _ (R : Rlp) (C : Crypto) (E : Evm) (rt : Runtime) (up : rt.poisoned ≡ false)
    (v : IsValid R C rt.eth_db) (small : length rt.eth_db.blocks ≤ u64_mod)
    (others : Runtime → Runtime) (h : Healthy R C E rt (others rt)) where
  -- On a server with a lock that is not poisoned and a valid database of at most 2^64 blocks, which
  -- other threads leave so between two locks: `eth_estimateGas`, for the block that a request
  -- names, answers with the gas of a run from the accounts after that block, as they are when the
  -- second lock is taken, whether the run succeeds or not. What the run has changed stays: the
  -- accounts after that block are afterwards changed by what a successful run returned, and are as
  -- they were after another run. The accounts after other blocks, the blocks, the index and the
  -- receipts are those that the other threads have left.
  pub estimate_gas_answer :
      (req : CallRequest) (number : Option BlockNumber) (n : ℕ)
      → Names R C rt.eth_db.blocks number n
      → (best : Block) × (before : Accounts) × (after : Accounts) × (db' : HashMapEthDb)
        × (get_last? (others rt).eth_db.blocks ≡ some best)
        × (get_elem? (others rt).eth_db.accounts n ≡ some before)
        × let from = or_zero req.from in
          let value = or_zero req.value in
          let input = or_nil (vec_of req.call_data) in
          let start = query_backend before from best (others rt).eth_db.config in
          let run = transact E start from value req.to input in
          (estimate_gas others E rt req number
            ≡ (record (others rt) { eth_db = db' }, ret (ok run.used_gas)))
          × Leaves E start from value req.to input (succeeded run.result.0) after
          × ((i : ℕ)
              → get_elem? db'.accounts i
                ≡ (if n == i then some after else get_elem? (others rt).eth_db.accounts i))
          × (db'.blocks ≡ (others rt).eth_db.blocks)
          × (db'.hash_index ≡ (others rt).eth_db.hash_index)
          × (db'.infos ≡ (others rt).eth_db.infos)
  unfolding estimate_gas estimate_locked
  estimate_gas_answer req number n named =
      let db = (others rt).eth_db in
      let from = or_zero req.from in
      let value = or_zero req.value in
      let input = or_nil (vec_of req.call_data) in
      let (b, at) =
        get_elem?-of_lt rt.eth_db.blocks n (Names-lt R C rt.eth_db.blocks number n named) in
      let there : n < length db.blocks = get_elem?-lt db.blocks n (h.kept.continues n b at) in
      let (best, before, after, db', last, found, rest) =
        estimate_gas-Leaves R C E db h.kept.valid n from value req.to input there in
      let (ran, left, states, blocks, index, infos, config) = rest in
      let read =
        parse_locked_ok rt number "parse number failed" up
          (parse_number-Names R C rt.eth_db v small number n named) in
      let f = estimate_locked E n from value req.to input in
      let start = query_backend before from best db.config in
      let locked : f db ≡ ret (db', ok (transact E start from value req.to input).used_gas) =
        ground arith in
      let e : estimate_gas others E rt req number ≡ with_mut_db (others rt) f = ground arith in
      (
        best,
        before,
        after,
        db',
        last,
        found,
        (e ∙ with_mut_db_ret (others rt) f h.up locked, left, states, blocks, index, infos),
      )
