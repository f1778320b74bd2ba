-- ===== src/Rpc/Visitor/Numerals.antt =====
-- src/rpc.rs, `visit_str` of `BlockNumberVisitor`, on texts that write a number.
use Prim.Native.Char.{Char, code}
use text.Mathlib.Text.{◌==◌ as str_eq}
use text.Mathlib.TextEquality.{eq_iff}
use ethereum_prototype.Base.{
  ℕ, ◌<◌, ◌≡◌, ◌≢◌, ap, ◌∙◌, sym, ◌↔◌, String, false, some, List, [], ◌∷◌, ok, Bool-cases,
  Result-cases, inl, inr, arith,
}
use ethereum_prototype.Signature.{u64_mod}
use ethereum_prototype.Rpc.BlockNumber.{num}
use ethereum_prototype.Rpc.Visitor.{codes, from_str_radix, number_of_text, visit_str}
use ethereum_prototype.Rpc.Visitor.Digits.{hex_value, unsigned_digits, from_str_radix_iff}

-- `0x`, and behind it, after an optional sign `+`, a nonempty string of hexadecimal digits whose
-- value is the number and fits a `u64`.
abbrev pub IsNumeral : List ℕ → ℕ → Type 0
IsNumeral text n =
    (rest : List ℕ) × (text ≡ b'0' ∷ b'x' ∷ rest)
    × (rest ≢ [])
    × (hex_value 0 (unsigned_digits rest) ≡ some n)
    × (n < u64_mod)

-- Behind a prefix the rest of the text decides.
number_of_prefixed :
    (rest : List ℕ) (n : ℕ)
    → (number_of_text (b'0' ∷ b'x' ∷ rest) ≡ ok n) ↔ (from_str_radix rest ≡ ok n)
unfolding number_of_text
number_of_prefixed rest n = elim (Result-cases (from_str_radix rest)) [
  | inl (e, failed) ↦ (λ h. ground arith, λ h. ground arith)
  | inr (m, read) ↦ (λ h. ground arith, λ h. ground arith)
]

-- What is read as a number starts with `0x`.
prefix_of :
    (text : List ℕ) (n : ℕ)
    → number_of_text text ≡ ok n
    → (rest : List ℕ) × (text ≡ b'0' ∷ b'x' ∷ rest)
unfolding number_of_text
prefix_of [] n h = absurd (ground arith)
prefix_of (c ∷ []) n h = absurd (ground arith)
prefix_of (c ∷ d ∷ rest) n h = (rest, ground arith)

number_of_text_iff : (text : List ℕ) (n : ℕ) → (number_of_text text ≡ ok n) ↔ IsNumeral text n
number_of_text_iff text n = (
  λ h.
      let (rest, same) = prefix_of text n h in
      let read = (number_of_prefixed rest n).0 (ap number_of_text (sym same) ∙ h) in
      let digits = (from_str_radix_iff rest n).0 read in (rest, same, digits.0, digits.1, digits.2),
  λ (rest, same, full, value, small).
      ap number_of_text same
      ∙ (number_of_prefixed rest n).1 ((from_str_radix_iff rest n).1 (full, value, small)),
)

-- A text that starts with `0` is none of the words.
not_word :
    (value : String) (c : Char) (s : String) {rest : List ℕ}
    → codes value ≡ b'0' ∷ rest
    → code c ≢ 48
    → str_eq value (String.◌∷◌ c s) ≡ false
not_word value c s e apart = elim (Bool-cases (str_eq value (String.◌∷◌ c s))) [
  | inr other ↦ other
  | inl same ↦ absurd (apart (cc (e, ap codes ((eq_iff value (String.◌∷◌ c s)).0 same))))
]

visit_str-number :
    (value : String) (n : ℕ) {rest : List ℕ}
    → codes value ≡ b'0' ∷ rest
    → number_of_text (codes value) ≡ ok n
    → visit_str value ≡ ok (num n)
unfolding visit_str
visit_str-number value n e h =
    let l = not_word value "l" "atest" e (λ e. cc) in
    let f = not_word value "e" "arliest" e (λ e. cc) in
    let p = not_word value "p" "ending" e (λ e. cc) in ground arith

number_of-visit_str :
    (value : String) (n : ℕ) → visit_str value ≡ ok (num n) → number_of_text (codes value) ≡ ok n
unfolding visit_str
number_of-visit_str value n h = elim (Result-cases (number_of_text (codes value))) [
  | inl (e, failed) ↦ absurd (ground arith)
  | inr (m, read) ↦ ground arith
]

-- A text names the block with a number exactly when it is `0x` and behind it, after an optional
-- sign `+`, a nonempty string of hexadecimal digits whose value is that number and is below 2^64.
pub visit_str_iff :
    (value : String) (n : ℕ) → (visit_str value ≡ ok (num n)) ↔ IsNumeral (codes value) n
visit_str_iff value n = (
  λ h. (number_of_text_iff (codes value) n).0 (number_of-visit_str value n h),
  λ w. visit_str-number value n w.1 ((number_of_text_iff (codes value) n).1 w),
)
