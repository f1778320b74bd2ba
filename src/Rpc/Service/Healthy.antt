-- ===== src/Rpc/Service/Healthy.antt =====
-- A healthy server of src/rpc.rs: its lock is not poisoned and its database is valid.
use ethereum_prototype.Base.{
  ℕ, ◌≤◌, ◌<◌, ◌≡◌, ◌≢◌, refl, sym, inl, inr, false, String, Option, none, some, length, Result, ok,
  Outcome, ret, panic, Outcome-cases, arith,
}
use mathlib.Core.Path.{subst}
use ethereum_prototype.Crates.Rlp.{Rlp}
use ethereum_prototype.Crates.Crypto.{Crypto}
use ethereum_prototype.Crates.Evm.{Evm}
use ethereum_prototype.Signature.{u64_mod}
use ethereum_prototype.Db.{HashMapEthDb}
use ethereum_prototype.Db.Valid.{IsValid}
use ethereum_prototype.Rpc.BlockNumber.{
  BlockNumber, num, hash, latest, earliest, pending, parse_number,
}
use ethereum_prototype.Rpc.Runtime.{Runtime, with_mut_db, with_mut_db_ret}
use ethereum_prototype.Rpc.Eth.Steps.{Kept, Kept-refl}
use ethereum_prototype.Rpc.Eth.Numbers.{parse_number-lt}

-- A block that is named by hash or word, or by the number of a block that there is.
abbrev pub InChain : HashMapEthDb → Option BlockNumber → Type 0
InChain db (some (num n)) = n < length db.blocks
InChain db _ = Unit

module _ (R : Rlp) (C : Crypto) (E : Evm) where
  -- What requests leave of a healthy server.
  pub record Healthy (rt rt' : Runtime) : Type 0 where
    pub up : rt'.poisoned ≡ false
    pub kept : Kept R C E rt.eth_db rt'.eth_db

  -- A handler has answered, and left the server healthy.
  abbrev pub Answered {ℓ} : {A : Type ℓ} → Runtime → Runtime × Outcome (Result String A) → Type ℓ
  Answered {A} rt out = (reply : Result String A) × (out.1 ≡ ret reply) × Healthy rt out.0

  pub Healthy-refl : {rt : Runtime} → rt.poisoned ≡ false → IsValid R C rt.eth_db → Healthy rt rt
  Healthy-refl up v = record { up = up; kept = Kept-refl R C E v }

  pub Healthy-trans : {rt rt' rt'' : Runtime} → Healthy rt rt' → Healthy rt' rt'' → Healthy rt rt''
  Healthy-trans h k = record {
    up = k.up;
    kept = record {
      valid = k.kept.valid;
      continues = λ i b e. k.kept.continues i b (h.kept.continues i b e);
    };
  }

  -- A section under the write lock that does not panic and keeps the database.
  pub locked-Answered {ℓ} :
      {A : Type ℓ} (rt : Runtime) (f : HashMapEthDb → Outcome (HashMapEthDb × Result String A))
      → rt.poisoned ≡ false
      → f rt.eth_db ≢ panic
      → ((db' : HashMapEthDb) (r : Result String A)
          → f rt.eth_db ≡ ret (db', r)
          → Kept R C E rt.eth_db db')
      → Answered rt (with_mut_db rt f)
  locked-Answered rt f up safe keeps = elim (Outcome-cases (f rt.eth_db)) [
    | inl bad ↦ absurd (safe bad)
    | inr ((db', r), good) ↦
        subst (Answered rt) (sym (with_mut_db_ret rt f up good))
          (r, refl, record { up = up; kept = keeps db' r good })
  ]

  -- An answer that a healthy server gives after others have left it healthy.
  pub Answered-after {ℓ} :
      {A : Type ℓ} {rt rt' : Runtime} {out : Runtime × Outcome (Result String A)}
      → Healthy rt rt'
      → Answered rt' out
      → Answered rt out
  Answered-after h (reply, given, k) = (reply, given, Healthy-trans h k)

  -- A section under the read lock that does not panic.
  pub read-Answered {ℓ} :
      {A : Type ℓ} (rt : Runtime) (reply : Outcome (Result String A))
      → rt.poisoned ≡ false
      → IsValid R C rt.eth_db
      → reply ≢ panic
      → Answered rt (rt, reply)
  read-Answered rt reply up v safe = elim (Outcome-cases reply) [
    | inl bad ↦ absurd (safe bad)
    | inr (r, good) ↦ (r, good, Healthy-refl up v)
  ]

  pub parse_number-InChain :
      (number : Option BlockNumber) (db : HashMapEthDb) {n : ℕ}
      → IsValid R C db
      → length db.blocks ≤ u64_mod
      → InChain db number
      → parse_number number db ≡ ok n
      → n < length db.blocks
  unfolding parse_number
  parse_number-InChain (some (num n)) db v small h e = ground arith
  parse_number-InChain none db v small h e = parse_number-lt R C none db v small tt e
  parse_number-InChain (some latest) db v small h e =
      parse_number-lt R C (some latest) db v small tt e
  parse_number-InChain (some pending) db v small h e =
      parse_number-lt R C (some pending) db v small tt e
  parse_number-InChain (some earliest) db v small h e =
      parse_number-lt R C (some earliest) db v small tt e
  parse_number-InChain (some (hash d c)) db v small h e =
      parse_number-lt R C (some (hash d c)) db v small tt e
