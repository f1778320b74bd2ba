-- ===== src/RpcTypes/Text.antt =====
-- src/rpc_types.rs: `Bytes` as JSON text, `0x` and two digits for each byte. Text is a list of
-- bytes.
use ethereum_prototype.Base.{
  ℕ, ◌%◌, ◌≡◌, Bool, false, ◌&&◌, List, [], ◌∷◌, length, Result, ok, err, ◌==◌, leb, if◌then◌else◌,
  arith,
}
use ethereum_prototype.Crates.Hex.{Hex, IsLawful}
use ethereum_prototype.RpcTypes.{Bytes}

-- `Invalid hex: ..`, with the error of the crate, and `Invalid bytes format. ..`.
pub data BytesError : Type 0 where
  invalid_hex : ℕ → BytesError
  invalid_format : BytesError

-- `value.starts_with("0x")`
abbrev pub starts_with_0x : List ℕ → Bool
starts_with_0x (a ∷ b ∷ rest) = a == b'0' && b == b'x'
starts_with_0x _ = false

-- `&value[2..]`
abbrev pub from_2 : List ℕ → List ℕ
from_2 (a ∷ b ∷ rest) = rest
from_2 _ = []

-- `Serialize for Bytes`
unfoldable pub serialize : Hex → Bytes → List ℕ
serialize H b = b'0' ∷ b'x' ∷ H.encode b.content

-- `BytesVisitor::visit_str`, also `visit_string`
unfoldable pub visit_str : Hex → List ℕ → Result BytesError Bytes
visit_str H value =
    if leb 2 (length value) && starts_with_0x value && length value % 2 == 0
    then elim (H.decode (from_2 value)) [
      | ok bytes ↦ ok (record { content = bytes })
      | err e ↦ err (invalid_hex e)
    ]
    else err invalid_format

-- Where the crate `hex` has its laws, every vector of bytes is read back from its JSON text.
pub visit_str-serialize : (H : Hex) → IsLawful H → (b : Bytes) → visit_str H (serialize H b) ≡ ok b
unfolding visit_str serialize
visit_str-serialize H L b = ground (arith, L.length-encode b.content, L.decode-encode b.content)

-- `0x` followed by an odd number of bytes is refused as ill-formed.
pub visit_str-invalid_format :
    (H : Hex) (rest : List ℕ)
    → length rest % 2 ≡ 1
    → visit_str H (b'0' ∷ b'x' ∷ rest) ≡ err invalid_format
unfolding visit_str
visit_str-invalid_format H rest h = ground arith
