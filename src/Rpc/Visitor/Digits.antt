-- ===== src/Rpc/Visitor/Digits.antt =====
-- `from_str_radix` against the value of a string of digits, and the range of what it accepts.
use ethereum_prototype.Base.{
  ℕ, ◌+◌, ◌*◌, ◌≤◌, ◌<◌, ◌≡◌, ◌≢◌, refl, ◌↔◌, Option, none, some, List, [], ◌∷◌, ok, arith, true,
  sym, ◌∙◌, ◌==◌, ltb, if◌then◌else◌, Option-cases, Bool-cases, inl, inr,
}
use ethereum_prototype.Signature.{u64_mod}
use ethereum_prototype.Rpc.Visitor.{to_digit, parse_digits, from_str_radix}

-- The value of a string of hexadecimal digits after a number, without a bound; none if a character
-- is no digit.
unfoldable pub hex_value : ℕ → List ℕ → Option ℕ
hex_value acc [] = some acc
hex_value acc (c ∷ cs) = elim (to_digit c) [ none ↦ none | some d ↦ hex_value (acc * 16 + d) cs ]

le-hex_value : (acc : ℕ) (cs : List ℕ) (n : ℕ) → hex_value acc cs ≡ some n → acc ≤ n
unfolding hex_value
le-hex_value acc [] n h = ground arith
le-hex_value acc (c ∷ cs) n h = elim (Option-cases (to_digit c)) [
  | inl bad ↦ absurd (ground arith)
  | inr (d, good) ↦
      let e : hex_value (acc * 16 + d) cs ≡ some n = ground arith in
      omega (arith, le-hex_value (acc * 16 + d) cs n e)
]

pub hex_value_cons :
    (acc c : ℕ) (cs : List ℕ) {d : ℕ}
    → to_digit c ≡ some d
    → hex_value acc (c ∷ cs) ≡ hex_value (acc * 16 + d) cs
unfolding hex_value
hex_value_cons acc c cs good = ground (arith)

-- The checked loop returns a number exactly when the characters are digits whose value fits a
-- `u64`, and it is that value.
parse_digits_iff :
    (acc : ℕ) (cs : List ℕ) (n : ℕ)
    → acc < u64_mod
    → (parse_digits acc cs ≡ ok n) ↔ ((hex_value acc cs ≡ some n) × (n < u64_mod))
unfolding parse_digits hex_value
parse_digits_iff acc [] n b = (λ h. ground arith, λ h. ground arith)
parse_digits_iff acc (c ∷ cs) n b = elim (Option-cases (to_digit c)) [
  | inl bad ↦ (λ h. ground arith, λ h. ground arith)
  | inr (d, good) ↦ elim (Bool-cases (ltb (acc * 16 + d) u64_mod)) [
    | inl small ↦
        let ih = parse_digits_iff (acc * 16 + d) cs n (ground arith) in
        let same : hex_value acc (c ∷ cs) ≡ hex_value (acc * 16 + d) cs =
          hex_value_cons acc c cs good in
        (
          λ h. let k = ih.0 (ground arith) in (same ∙ k.0, k.1),
          λ h.
              let k : parse_digits (acc * 16 + d) cs ≡ ok n = ih.1 (sym same ∙ h.0, h.1) in
              ground arith,
        )
    | inr large ↦ (
      λ h. absurd (ground arith),
      λ h.
          let e : hex_value (acc * 16 + d) cs ≡ some n = ground arith in
          absurd (ground (arith, le-hex_value (acc * 16 + d) cs n e)),
    )
  ]
]

-- A sign `+` in front of other characters is skipped.
abbrev pub unsigned_digits : List ℕ → List ℕ
unsigned_digits (c ∷ d ∷ cs) = if c == b'+' then d ∷ cs else c ∷ d ∷ cs
unsigned_digits cs = cs

pub to_digit_sign : (c : ℕ) → (c == b'+') ≡ true → to_digit c ≡ none
unfolding to_digit
to_digit_sign c h = ground arith

-- A text is read as a `u64` in hexadecimal exactly when, behind an optional sign `+`, it is a
-- nonempty string of hexadecimal digits whose value is below 2^64; the result is that value.
pub from_str_radix_iff :
    (text : List ℕ) (n : ℕ)
    → (from_str_radix text ≡ ok n)
      ↔ ((text ≢ []) × (hex_value 0 (unsigned_digits text) ≡ some n) × (n < u64_mod))
unfolding from_str_radix hex_value
from_str_radix_iff [] n = (λ h. cc, λ h. absurd (h.0 refl))
from_str_radix_iff (c ∷ []) n = elim (Bool-cases (c == b'+')) [
  | inl sign ↦
      let none_read = to_digit_sign c sign in
      (λ h. absurd (ground arith), λ h. absurd (ground arith))
  | inr digit ↦
      let ih = parse_digits_iff 0 (c ∷ []) n (omega arith) in
      let same : from_str_radix (c ∷ []) ≡ parse_digits 0 (c ∷ []) = ground arith in
      (λ h. let k = ih.0 (sym same ∙ h) in (λ e. cc, k.0, k.1), λ h. same ∙ ih.1 (h.1, h.2))
]
from_str_radix_iff (c ∷ d ∷ cs) n =
    let ih = parse_digits_iff 0 (unsigned_digits (c ∷ d ∷ cs)) n (omega arith) in
    (λ h. let k = ih.0 h in (λ e. cc, k.0, k.1), λ h. ih.1 (h.1, h.2))
