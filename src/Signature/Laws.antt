-- ===== src/Signature/Laws.antt =====
-- The recovery bit and the chain id that a `v` holds.
use ethereum_prototype.Base.{ℕ, ◌+◌, ◌*◌, ◌≤◌, ◌<◌, ◌≡◌, ◌≢◌, Option, none, some, arith}
use ethereum_prototype.Signature.{u64_mod, add_chain_replay_protection, check_replay_protection}

-- What the recovery bit and the chain id must satisfy for the sum to stay below 2^64.
abbrev pub Fits : ℕ → Option ℕ → Type 0
Fits v none = v ≤ 1
Fits v (some n) = (v ≤ 1) × (v + 35 + n * 2 < u64_mod)

-- Without overflow the recovery bit is read back, with and without a chain id.
pub check-add_chain_replay_protection :
    (v : ℕ) (chain_id : Option ℕ)
    → Fits v chain_id
    → check_replay_protection (add_chain_replay_protection v chain_id) ≡ v
unfolding check_replay_protection add_chain_replay_protection
check-add_chain_replay_protection v none h = ground arith
check-add_chain_replay_protection v (some n) h = ground arith

pub check_replay_protection_range :
    (v : ℕ) → check_replay_protection v ≢ 4 → check_replay_protection v ≤ 1
unfolding check_replay_protection
check_replay_protection_range v h = ground arith
