-- ===== src/Rpc/Eth/Poison.antt =====
-- src/rpc.rs: an explicit block number past the best block, and the methods with a poisoned lock.
use ethereum_prototype.Base.{
  ℕ, ◌≤◌, ◌≡◌, refl, ap, true, false, Bool, Option, some, length, ok, err, ret, panic, arith,
  String, List,
}
use mathlib.Core.Path.{subst}
use ethereum_prototype.Crates.Rlp.{Rlp}
use ethereum_prototype.Crates.Crypto.{Crypto}
use ethereum_prototype.Crates.Evm.{Evm}
use ethereum_prototype.Transaction.Signed.{SignedTransaction}
use ethereum_prototype.RpcTypes.{Bytes, CallRequest, vec_of}
use ethereum_prototype.Db.{HashMapEthDb, Clock}
use ethereum_prototype.Db.Valid.{IsValid}
use ethereum_prototype.Db.Queries.{call_panics}
use ethereum_prototype.Rpc.BlockNumber.{BlockNumber, num}
use ethereum_prototype.Rpc.Runtime.{Runtime, lock_error, with_mut_db_poisoned, with_mut_db_panic}
use ethereum_prototype.Rpc.Eth.{
  block_number, block_by_number, transaction_receipt, balance, transaction_count, call,
  estimate_gas, send_raw_transaction, parse_raw, submit_parsed, parse_locked, call_locked, or_zero,
  or_nil,
}
use ethereum_prototype.Rpc.Eth.Steps.{Reach, Reach-Served}

parse_locked_poisoned :
    (rt : Runtime) (n : Option BlockNumber) (message : String)
    → rt.poisoned ≡ true
    → parse_locked rt n message ≡ err lock_error
unfolding parse_locked
parse_locked_poisoned rt n message p = rw (p, parse_locked) refl

parse_locked_num :
    (rt : Runtime) (n : ℕ) (message : String)
    → rt.poisoned ≡ false
    → parse_locked rt (some (num n)) message ≡ ok n
unfolding parse_locked
parse_locked_num rt n message p = rw (p, parse_locked) refl

call_locked_panics :
    (E : Evm) (n from to : ℕ) (input : List ℕ) (db : HashMapEthDb)
    → length db.accounts ≤ n
    → call_locked E n from to input db ≡ panic
unfolding call_locked
call_locked_panics E n from to input db h = rw (call_panics E db n from to input h) refl

module _ (R : Rlp) (C : Crypto) (E : Evm) (others : Runtime → Runtime) where
  -- Every method that reads or writes the database answers with the error of the lock, and leaves
  -- the runtime alone.
  pub record IsDown (rt : Runtime) : Type 0 where
    pub block_number : block_number rt ≡ ret (err lock_error)
    pub block_by_number :
        (n : BlockNumber) (full : Bool) → block_by_number R C rt n full ≡ ret (err lock_error)
    pub receipt : (h : ℕ) → transaction_receipt R C rt h ≡ ret (err lock_error)
    pub balance : (a : ℕ) (n : Option BlockNumber) → balance others rt a n ≡ ret (err lock_error)
    pub transaction_count :
        (a : ℕ) (n : Option BlockNumber) → transaction_count others rt a n ≡ ret (err lock_error)
    pub call :
        (req : CallRequest) (n : Option BlockNumber) (to : ℕ)
        → req.to ≡ some to
        → call others E rt req n ≡ (rt, ret (err lock_error))
    pub estimate_gas :
        (req : CallRequest) (n : Option BlockNumber)
        → estimate_gas others E rt req n ≡ (rt, ret (err lock_error))
    pub send_raw_transaction :
        (now : Clock) (raw : Bytes) {signed : SignedTransaction}
        → parse_raw R C raw ≡ ok signed
        → send_raw_transaction R C E now rt raw ≡ (rt, ret (err lock_error))

  panicking_call :
      (rt : Runtime) (n : ℕ) (req : CallRequest) {to : ℕ}
      → rt.poisoned ≡ false
      → (others rt).poisoned ≡ false
      → IsValid R C (others rt).eth_db
      → length (others rt).eth_db.blocks ≤ n
      → req.to ≡ some to
      → call others E rt req (some (num n)) ≡ (record (others rt) { poisoned = true }, panic)
  unfolding call
  panicking_call rt n req {to} p q v past given =
      let input = or_nil (vec_of req.call_data) in
      let f = call_locked E n (or_zero req.from) to input in
      ground (
        arith,
        parse_locked_num rt n "parse number failed" p,
        call_locked_panics E n (or_zero req.from) to input (others rt).eth_db
            (omega (arith, v.states)),
        with_mut_db_panic (others rt) f q,
      )

  -- With a poisoned lock every method that reads or writes the database answers with the error of
  -- the lock and leaves the runtime alone: the parsing of a raw transaction, which needs no lock,
  -- has to succeed before the lock is asked for.
  pub poisoned-IsDown : (rt : Runtime) → rt.poisoned ≡ true → IsDown rt
  unfolding block_number block_by_number transaction_receipt balance transaction_count call
      estimate_gas send_raw_transaction
  poisoned-IsDown rt p = record {
    block_number = ground arith;
    block_by_number = λ n full. ground arith;
    receipt = λ h. ground arith;
    balance = λ a n. ground (arith, parse_locked_poisoned rt n "parse block number failed" p);
    transaction_count = λ a n. ground (arith, parse_locked_poisoned rt n "parse number failed" p);
    call = λ req n to given. ground (arith, parse_locked_poisoned rt n "parse number failed" p);
    estimate_gas = λ req n. ground (arith, parse_locked_poisoned rt n "parse number failed" p);
    send_raw_transaction = λ now raw {signed} parsed.
        ground (arith, with_mut_db_poisoned rt (submit_parsed R C E now signed) p);
  }

  -- With a lock that is not poisoned at either of the two times it is taken, and a valid database
  -- at the second: `eth_call` with a receiver and an explicit number that is then not below the
  -- number of blocks panics and poisons the lock. From then on, whatever is requested, every method
  -- that needs the database is down.
  pub call_past_end :
      (rt : Runtime) (n : ℕ) (req : CallRequest) {to : ℕ}
      → rt.poisoned ≡ false
      → (others rt).poisoned ≡ false
      → IsValid R C (others rt).eth_db
      → length (others rt).eth_db.blocks ≤ n
      → req.to ≡ some to
      → ((call others E rt req (some (num n))).1 ≡ panic)
        × ((later : Runtime)
            → Reach R C E (call others E rt req (some (num n))).0 later
            → IsDown later)
  call_past_end rt n req {to} p q v past given =
      let e = panicking_call rt n req p q v past given in
      (
        ap (λ x. x.1) e,
        λ later r.
            let same =
              (Reach-Served R C E v (subst (λ x. Reach R C E x.0 later) e r)).poisoned refl in
            poisoned-IsDown later (ap (λ (t : Runtime). t.poisoned) same),
      )
