-- ===== src/Crates/Hex.antt =====
-- The crate `hex` as src/rpc_types.rs calls it. Text is a list of bytes.
pub mod Sample
use ethereum_prototype.Base.{ℕ, ◌*◌, ◌≡◌, List, length, Result, ok}

pub record Hex : Type 0 where
  pub encode : List ℕ → List ℕ
  -- the error is a number
  pub decode : List ℕ → Result ℕ (List ℕ)

-- Every byte is written as two digits, and read back.
pub record IsLawful (H : Hex) : Type 0 where
  pub length-encode : (b : List ℕ) → length (H.encode b) ≡ 2 * length b
  pub decode-encode : (b : List ℕ) → H.decode (H.encode b) ≡ ok b
