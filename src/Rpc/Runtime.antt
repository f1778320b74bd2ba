-- ===== src/Rpc/Runtime.antt =====
-- src/runtime.rs: the database behind an `RwLock`, and the macros of src/rpc.rs that take the lock.
-- A panic while the lock is held for writing poisons it, and a poisoned lock is not given out
-- again.
use ethereum_prototype.Base.{
  ◌≡◌, refl, String, Bool, true, false, Result, ok, err, Outcome, ret, panic, arith, if◌then◌else◌,
}
use ethereum_prototype.Db.{HashMapEthDb}

pub record Runtime : Type 0 where
  pub eth_db : HashMapEthDb
  pub poisoned : Bool

-- What a handler returns: `RpcResult`, an error being its message, or a panic of its thread.
abbrev pub Reply : Type 0 → Type 0
Reply A = Outcome (Result String A)

abbrev pub lock_error : String
lock_error = "failed to require runtime.eth_db read lock"

-- `get_db!(..)?` and what is done under the lock.
unfoldable pub with_db {ℓ} :
    {A : Type ℓ} → Runtime → (HashMapEthDb → Outcome (Result String A)) → Outcome (Result String A)
with_db rt f = if rt.poisoned then ret (err lock_error) else f rt.eth_db

-- What is left when the lock was held for writing.
abbrev release {ℓ} :
    {A : Type ℓ}
    → Runtime
    → Outcome (HashMapEthDb × Result String A)
    → Runtime × Outcome (Result String A)
release rt (ret (db, r)) = (record rt { eth_db = db }, ret r)
release rt panic = (record rt { poisoned = true }, panic)

-- `get_mut_db!(..)?` and what is done under the lock. The panics of the program under the write
-- lock all come before its first write.
unfoldable pub with_mut_db {ℓ} :
    {A : Type ℓ}
    → Runtime
    → (HashMapEthDb → Outcome (HashMapEthDb × Result String A))
    → Runtime × Outcome (Result String A)
with_mut_db rt f = if rt.poisoned then (rt, ret (err lock_error)) else release rt (f rt.eth_db)

-- `rpc_try!`: any error becomes the message.
abbrev pub rpc_try {ℓ κ} : {E : Type ℓ} {A : Type κ} → Result E A → String → Result String A
rpc_try (ok a) message = ok a
rpc_try (err e) message = err message

-- `rpc_err!`: an internal error with the message.
abbrev pub rpc_err {ℓ} : {A : Type ℓ} → String → Result String A
rpc_err message = err message

module _ {ℓ} {A : Type ℓ} (rt : Runtime)
    (f : HashMapEthDb → Outcome (HashMapEthDb × Result String A)) where
  pub with_mut_db_poisoned : rt.poisoned ≡ true → with_mut_db rt f ≡ (rt, ret (err lock_error))
  unfolding with_mut_db
  with_mut_db_poisoned p = rw (p, with_mut_db) refl

  pub with_mut_db_ret :
      {db : HashMapEthDb} {r : Result String A}
      → rt.poisoned ≡ false
      → f rt.eth_db ≡ ret (db, r)
      → with_mut_db rt f ≡ (record rt { eth_db = db }, ret r)
  unfolding with_mut_db
  with_mut_db_ret p e = ground arith

  pub with_mut_db_panic :
      rt.poisoned ≡ false
      → f rt.eth_db ≡ panic
      → with_mut_db rt f ≡ (record rt { poisoned = true }, panic)
  unfolding with_mut_db
  with_mut_db_panic p e = ground arith
