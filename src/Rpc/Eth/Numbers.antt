-- ===== src/Rpc/Eth/Numbers.antt =====
-- src/rpc.rs: the block numbers that requests name, and what other threads may do between the two
-- locks of a method.
use ethereum_prototype.Base.{
  ℕ, ◌≤◌, ◌<◌, ◌≡◌, ◌≢◌, sym, ◌∙◌, inl, inr, Option, none, some, List, length, get_elem?-of_lt,
  get_elem?-lt, Result, ok, Outcome, panic, arith, String, Option-cases, Result-cases,
}
use ethereum_prototype.Crates.Rlp.{Rlp}
use ethereum_prototype.Crates.Crypto.{Crypto}
use ethereum_prototype.Crates.Evm.{Evm}
use ethereum_prototype.Signature.{u64_mod}
use ethereum_prototype.RpcTypes.{CallRequest, vec_of}
use ethereum_prototype.Db.{HashMapEthDb, best_number}
use ethereum_prototype.Db.Chain.{number_of_hash-lt}
use ethereum_prototype.Db.Valid.{IsValid}
use ethereum_prototype.Db.Queries.{call_total, estimate_gas_total}
use ethereum_prototype.Rpc.BlockNumber.{
  BlockNumber, hash, num, latest, earliest, pending, parse_number,
}
use ethereum_prototype.Rpc.Runtime.{Runtime, with_mut_db}
use ethereum_prototype.Rpc.Eth.{
  call, estimate_gas, call_locked, estimate_locked, parse_locked, or_zero, or_nil,
}
use ethereum_prototype.Rpc.Eth.Steps.{Reach, Reach-Served, Continues}

-- A block that is named by hash or by word, not by an explicit number.
abbrev pub IsNamed : Option BlockNumber → Type 0
IsNamed none = Unit
IsNamed (some (num n)) = ⊥
IsNamed (some _) = Unit

best_number-lt :
    (db : HashMapEthDb)
    → 0 < length db.blocks
    → length db.blocks ≤ u64_mod
    → best_number db < length db.blocks
unfolding best_number
best_number-lt db h k = omega arith

module _ (R : Rlp) (C : Crypto) where
  -- On a valid database of at most 2^64 blocks, a block that is named by hash or word and found has
  -- a number below the number of blocks.
  pub parse_number-lt :
      (number : Option BlockNumber) (db : HashMapEthDb) {n : ℕ}
      → IsValid R C db
      → length db.blocks ≤ u64_mod
      → IsNamed number
      → parse_number number db ≡ ok n
      → n < length db.blocks
  unfolding parse_number
  parse_number-lt none db v small named h = ground (arith, best_number-lt db v.chain.pos)
  parse_number-lt (some (num n)) db v small named h = absurd named
  parse_number-lt (some latest) db v small named h = ground (arith, best_number-lt db v.chain.pos)
  parse_number-lt (some pending) db v small named h = ground (arith, best_number-lt db v.chain.pos)
  parse_number-lt (some earliest) db v small named h = ground (arith, v.chain.pos)
  parse_number-lt (some (hash digest canonical)) db {n} v small named h =
      number_of_hash-lt R C db.blocks digest n v.chain (sym (v.indexed digest) ∙ ground arith)

  pub Continues-lt :
      (db db' : HashMapEthDb) (n : ℕ)
      → Continues db db'
      → n < length db.blocks
      → n < length db'.blocks
  Continues-lt db db' n c h =
      let (b, at) = get_elem?-of_lt db.blocks n h in get_elem?-lt db'.blocks n (c n b at)

with_mut_db-ne-panic {ℓ} :
    {A : Type ℓ} (rt : Runtime) (f : HashMapEthDb → Outcome (HashMapEthDb × Result String A))
    → f rt.eth_db ≢ panic
    → (with_mut_db rt f).1 ≢ panic
unfolding with_mut_db
with_mut_db-ne-panic rt f h e = ground arith

pub parse_locked-eq-ok :
    (rt : Runtime) (number : Option BlockNumber) (message : String) {n : ℕ}
    → parse_locked rt number message ≡ ok n
    → parse_number number rt.eth_db ≡ ok n
unfolding parse_locked
parse_locked-eq-ok rt number message h = ground arith

module _ (E : Evm) (n from : ℕ) where
  pub call_locked-ne-panic :
      (to : ℕ) (input : List ℕ) (db : HashMapEthDb)
      → n < length db.accounts
      → 0 < length db.blocks
      → call_locked E n from to input db ≢ panic
  unfolding call_locked
  call_locked-ne-panic to input db h k e = ground (arith, call_total E db n from to input h k)

  pub estimate_locked-ne-panic :
      (value : ℕ) (to : Option ℕ) (input : List ℕ) (db : HashMapEthDb)
      → n < length db.accounts
      → 0 < length db.blocks
      → estimate_locked E n from value to input db ≢ panic
  unfolding estimate_locked
  estimate_locked-ne-panic value to input db h k e =
      ground (arith, estimate_gas_total E db n from value to input h k)

module _ (R : Rlp) (C : Crypto) (E : Evm) (others : Runtime → Runtime) (rt : Runtime)
    (v : IsValid R C rt.eth_db) (small : length rt.eth_db.blocks ≤ u64_mod)
    (reach : Reach R C E rt (others rt)) (number : Option BlockNumber)
    (named : IsNamed number) where
  -- The number that was parsed under the first lock is that of a block under the second.
  pub still_there :
      (message : String) {n : ℕ}
      → parse_locked rt number message ≡ ok n
      → (n < length (others rt).eth_db.accounts) × (0 < length (others rt).eth_db.blocks)
  still_there message {n} h =
      let parsed = parse_locked-eq-ok rt number message h in
      let served = Reach-Served R C E v reach in
      let before = parse_number-lt R C number rt.eth_db v small named parsed in
      let after = Continues-lt R C rt.eth_db (others rt).eth_db n served.kept.continues before in
      (omega (arith, served.kept.valid.states), served.kept.valid.chain.pos)

  call_ne_panic : (req : CallRequest) → (call others E rt req number).1 ≢ panic
  unfolding call
  call_ne_panic req e = elim (Option-cases req.to) [
    | inl missing ↦ ground arith
    | inr (to, given) ↦ elim (Result-cases (parse_locked rt number "parse number failed")) [
      | inl (m, failed) ↦ ground arith
      | inr (n, parsed) ↦
          let (h, k) = still_there "parse number failed" parsed in
          let f = call_locked E n (or_zero req.from) to (or_nil (vec_of req.call_data)) in
          let safe : f (others rt).eth_db ≢ panic =
            call_locked-ne-panic E n (or_zero req.from) to (or_nil (vec_of req.call_data))
              (others rt).eth_db h k in
          let kept = with_mut_db-ne-panic (others rt) f safe in kept (ground arith)
    ]
  ]

  estimate_gas_ne_panic : (req : CallRequest) → (estimate_gas others E rt req number).1 ≢ panic
  unfolding estimate_gas
  estimate_gas_ne_panic req e = elim (Result-cases (parse_locked rt number "parse number failed")) [
    | inl (m, failed) ↦ ground arith
    | inr (n, parsed) ↦
        let (h, k) = still_there "parse number failed" parsed in
        let f =
          estimate_locked E n (or_zero req.from) (or_zero req.value) req.to
            (or_nil (vec_of req.call_data)) in
        let safe : f (others rt).eth_db ≢ panic =
          estimate_locked-ne-panic E n (or_zero req.from) (or_zero req.value) req.to
            (or_nil (vec_of req.call_data)) (others rt).eth_db h k in
        let kept = with_mut_db-ne-panic (others rt) f safe in kept (ground arith)
  ]

  -- On a valid database of at most 2^64 blocks, `eth_call` and `eth_estimateGas` for a block that
  -- is named by hash or by word never panic, whatever requests other threads serve between the lock
  -- under which the number is parsed and the lock under which it is used.
  pub named_ne_panic :
      (req : CallRequest)
      → ((call others E rt req number).1 ≢ panic)
        × ((estimate_gas others E rt req number).1 ≢ panic)
  named_ne_panic req = (call_ne_panic req, estimate_gas_ne_panic req)
