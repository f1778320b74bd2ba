-- ===== src/Crates/Hex/Sample.antt =====
-- A coding that has the laws of `IsLawful`, for the concrete runs: a byte is its quotient and its
-- remainder by 16.
use ethereum_prototype.Base.{
  ℕ, ◌+◌, ◌*◌, ◌/◌, ◌%◌, ◌≡◌, refl, List, [], ◌∷◌, length, Result, ok, err, arith,
}
use ethereum_prototype.Crates.Hex.{Hex, IsLawful}

digits : List ℕ → List ℕ
digits [] = []
digits (b ∷ bs) = b / 16 ∷ b % 16 ∷ digits bs

cons_byte : ℕ → Result ℕ (List ℕ) → Result ℕ (List ℕ)
cons_byte b (ok bs) = ok (b ∷ bs)
cons_byte b (err e) = err e

bytes_of : List ℕ → Result ℕ (List ℕ)
unfolding cons_byte
bytes_of [] = ok []
bytes_of (a ∷ []) = err 0
bytes_of (a ∷ b ∷ rest) = cons_byte (a * 16 + b) (bytes_of rest)

unfoldable pub sample : Hex
unfolding digits bytes_of
sample = record { encode = digits; decode = bytes_of }

length-digits : (b : List ℕ) → length (digits b) ≡ 2 * length b
unfolding digits
length-digits [] = refl
length-digits (b ∷ bs) = ground (arith, length-digits bs)

bytes_of-digits : (b : List ℕ) → bytes_of (digits b) ≡ ok b
unfolding bytes_of digits
bytes_of-digits [] = refl
bytes_of-digits (b ∷ bs) = ground (arith, bytes_of-digits bs)

pub sample-IsLawful : IsLawful sample
unfolding sample
sample-IsLawful = record { length-encode = length-digits; decode-encode = bytes_of-digits }
