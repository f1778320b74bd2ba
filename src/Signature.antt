-- ===== src/Signature.antt =====
-- src/transaction.rs, `mod signature`: the chain id in the `v` of a signature. `u64` wraps.
pub mod Laws
use ethereum_prototype.Base.{
  ℕ, ◌+◌, ◌-◌, ◌*◌, ◌/◌, ◌%◌, ◌^◌, Option, none, some, ◌==◌, leb, if◌then◌else◌,
}

abbrev pub u64_mod : ℕ
u64_mod = 18446744073709551616

unfoldable pub add_chain_replay_protection : ℕ → Option ℕ → ℕ
add_chain_replay_protection v chain_id =
    (v + elim chain_id [ some n ↦ (35 + (n * 2) % u64_mod) % u64_mod | none ↦ 27 ]) % u64_mod

unfoldable pub check_replay_protection : ℕ → ℕ
check_replay_protection v =
    if v == 27 then 0 else if v == 28 then 1 else if leb 35 v then (v - 1) % 2 else 4
