-- ===== src/Rpc/Visitor/Written.antt =====
-- src/rpc.rs, `BlockNumberVisitor`, on the JSON forms of a block number.
use Prim.Native.Char.{Char, code}
use mathlib.Core.Path.{subst}
use text.Mathlib.Text.{◌==◌ as str_eq}
use text.Mathlib.TextEquality.{eq_iff}
use ethereum_prototype.Base.{
  ℕ, zero, suc, ◌+◌, ◌*◌, ◌^◌, ◌/◌, ◌%◌, ◌<◌, ◌≡◌, ◌≢◌, refl, sym, ap, ◌∙◌, String, Bool, false,
  true, none, some, List, [], ◌∷◌, ok, ◌==◌, ◌&&◌, ltb, if◌then◌else◌, ltb→lt, Bool-cases,
  Option-cases, inl, inr, arith,
}
use ethereum_prototype.Signature.{u64_mod}
use ethereum_prototype.Crates.Serde.{Values, Any, a_text, an_object, Deserializer, IsLawful}
use ethereum_prototype.Rpc.BlockNumber.{BlockNumber, hash, num, latest, earliest, pending}
use ethereum_prototype.Rpc.Visitor.{
  codes, to_digit, from_str_radix, number_of_text, visit_str, deserialize,
}
use ethereum_prototype.Rpc.Visitor.Digits.{
  hex_value, hex_value_cons, to_digit_sign, unsigned_digits, from_str_radix_iff,
}
use ethereum_prototype.Rpc.Visitor.Objects.{
  block_hash, require_canonical, Writes, access, deserialize-access,
}

-- The character at a place in a text.
abbrev char_at : String → ℕ → Char
char_at String.[] n = "0"
char_at (String.◌∷◌ c s) zero = c
char_at (String.◌∷◌ c s) (suc n) = char_at s n

-- The digit of a number below 16.
abbrev digit_of : ℕ → Char
digit_of d = char_at "0123456789abcdef" d

abbrev all_below : (ℕ → Bool) → ℕ → Bool
all_below p zero = true
all_below p (suc n) = p n && all_below p n

all_below_lem : (p : ℕ → Bool) (n d : ℕ) → all_below p n ≡ true → d < n → p d ≡ true
all_below_lem p zero d h b = absurd (omega arith)
all_below_lem p (suc n) d h b = elim (Bool-cases (d == n)) [
  | inl here ↦
      let same : n ≡ d = ground arith in
      let last : p n ≡ true = ground arith in subst (λ m. p m ≡ true) same last
  | inr there ↦ all_below_lem p n d (ground arith) (ground arith)
]

-- The digit is read as the number.
is_read : ℕ → Bool
is_read d = elim (to_digit (code (digit_of d))) [ some e ↦ e == d | none ↦ false ]

all_read : all_below is_read 16 ≡ true
unfolding is_read to_digit
all_read = refl

to_digit-digit_of : (d : ℕ) → d < 16 → to_digit (code (digit_of d)) ≡ some d
unfolding is_read
to_digit-digit_of d h =
    let read = all_below_lem is_read 16 d all_read h in
    elim (Option-cases (to_digit (code (digit_of d)))) [
      | inl none_read ↦ absurd (ground arith)
      | inr (e, some_read) ↦ ground arith
    ]

-- The digits of a number in front of a text, with as much fuel as there may be digits.
digits : ℕ → ℕ → String → String
digits zero n rest = rest
digits (suc fuel) n rest =
    let more = digits fuel (n / 16) (String.◌∷◌ (digit_of (n % 16)) rest) in
    if ltb n 16 then String.◌∷◌ (digit_of (n % 16)) rest else more

digits_last :
    (fuel n : ℕ) (rest : String)
    → ltb n 16 ≡ true
    → digits (suc fuel) n rest ≡ String.◌∷◌ (digit_of (n % 16)) rest
unfolding digits
digits_last fuel n rest last = rw (last, digits) refl

digits_more :
    (fuel n : ℕ) (rest : String)
    → ltb n 16 ≡ false
    → digits (suc fuel) n rest ≡ digits fuel (n / 16) (String.◌∷◌ (digit_of (n % 16)) rest)
unfolding digits
digits_more fuel n rest more = rw (more, digits) refl

hex_value-digit :
    (acc n : ℕ) (rest : String)
    → hex_value acc (codes (String.◌∷◌ (digit_of (n % 16)) rest))
      ≡ hex_value (acc * 16 + n % 16) (codes rest)
hex_value-digit acc n rest =
    hex_value_cons acc (code (digit_of (n % 16))) (codes rest)
      (to_digit-digit_of (n % 16) (omega arith))

hex_value-digits :
    (fuel n : ℕ) (rest : String)
    → n < 16 ^ fuel
    → hex_value 0 (codes (digits fuel n rest)) ≡ hex_value n (codes rest)
unfolding digits
hex_value-digits zero n rest h = ap (λ m. hex_value m (codes rest)) (omega arith)
hex_value-digits (suc fuel) n rest h = elim (Bool-cases (ltb n 16)) [
  | inl last ↦
      ap (λ s. hex_value 0 (codes s)) (digits_last fuel n rest last)
      ∙ hex_value-digit 0 n rest
      ∙ ap (λ m. hex_value m (codes rest)) (omega (arith, ltb→lt n 16 last))
  | inr more ↦
      ap (λ s. hex_value 0 (codes s)) (digits_more fuel n rest more)
      ∙ hex_value-digits fuel (n / 16) (String.◌∷◌ (digit_of (n % 16)) rest) (omega arith)
      ∙ hex_value-digit (n / 16) n rest
      ∙ ap (λ m. hex_value m (codes rest)) (omega arith)
]

digits_ne_nil :
    (fuel n : ℕ) (c : Char) (rest : String) → codes (digits fuel n (String.◌∷◌ c rest)) ≢ []
unfolding digits
digits_ne_nil zero n c rest e = cc
digits_ne_nil (suc fuel) n c rest e = elim (Bool-cases (ltb n 16)) [
  | inl last ↦ cc (ap codes (digits_last fuel n (String.◌∷◌ c rest) last), e)
  | inr more ↦
      digits_ne_nil fuel (n / 16) (digit_of (n % 16)) (String.◌∷◌ c rest)
        (ap codes (sym (digits_more fuel n (String.◌∷◌ c rest) more)) ∙ e)
]

-- A `u64` in hexadecimal digits.
pub hex_text : ℕ → String
unfolding digits
hex_text n = digits 16 n String.[]

hex_text_ne_nil : (n : ℕ) → codes (hex_text n) ≢ []
unfolding hex_text
hex_text_ne_nil n e = elim (Bool-cases (ltb n 16)) [
  | inl last ↦ cc (ap codes (digits_last 15 n String.[] last), e)
  | inr more ↦
      digits_ne_nil 15 (n / 16) (digit_of (n % 16)) String.[]
        (ap codes (sym (digits_more 15 n String.[] more)) ∙ e)
]

-- Digits carry no sign.
unsigned_digits-of_hex_value :
    (cs : List ℕ) (n : ℕ) → hex_value 0 cs ≡ some n → unsigned_digits cs ≡ cs
unfolding hex_value
unsigned_digits-of_hex_value [] n h = refl
unsigned_digits-of_hex_value (c ∷ []) n h = refl
unsigned_digits-of_hex_value (c ∷ d ∷ cs) n h = elim (Bool-cases (c == b'+')) [
  | inl sign ↦ absurd (let no_digit = to_digit_sign c sign in ground arith)
  | inr digit ↦ rw digit refl
]

from_str_radix-hex_text : (n : ℕ) → n < u64_mod → from_str_radix (codes (hex_text n)) ≡ ok n
unfolding hex_text hex_value
from_str_radix-hex_text n h =
    let value : hex_value 0 (codes (hex_text n)) ≡ some n =
      hex_value-digits 16 n String.[] (omega arith) in
    let plain = unsigned_digits-of_hex_value (codes (hex_text n)) n value in
    (from_str_radix_iff (codes (hex_text n)) n).1
      (hex_text_ne_nil n, ap (hex_value 0) plain ∙ value, h)

abbrev number_text : ℕ → String
number_text n = String.◌∷◌ "0" (String.◌∷◌ "x" (hex_text n))

-- A number is none of the words.
number_text-ne-word :
    (n : ℕ) (c : Char) (s : String) → code c ≢ 48 → str_eq (number_text n) (String.◌∷◌ c s) ≡ false
number_text-ne-word n c s apart = elim (Bool-cases (str_eq (number_text n) (String.◌∷◌ c s))) [
  | inr other ↦ other
  | inl same ↦ absurd (apart (cc (ap codes ((eq_iff (number_text n) (String.◌∷◌ c s)).0 same))))
]

visit_str-number_text : (n : ℕ) → n < u64_mod → visit_str (number_text n) ≡ ok (num n)
unfolding visit_str number_of_text
visit_str-number_text n h =
    rw
      (
        number_text-ne-word n "l" "atest" (λ e. cc),
        number_text-ne-word n "e" "arliest" (λ e. cc),
        number_text-ne-word n "p" "ending" (λ e. cc),
        from_str_radix-hex_text n h,
      )
      refl

-- Numbers that fit a `u64`.
abbrev pub FitsU64 : BlockNumber → Type 0
FitsU64 (num n) = n < u64_mod
FitsU64 _ = Unit

module _ {V : Type 0} (R : Values V) (W : Writes R) where
  -- The JSON of a block number: a word, `0x` with digits, or an object.
  abbrev pub json_of : BlockNumber → Any V
  json_of latest = a_text "latest"
  json_of earliest = a_text "earliest"
  json_of pending = a_text "pending"
  json_of (num n) = a_text (number_text n)
  json_of (hash h require) = an_object (access R W (block_hash h ∷ require_canonical require ∷ []))

  -- Where values are read back as they were written, and objects that are read to their end are
  -- not refused, every way to name a block, with a number below 2^64 or any other, has a JSON form
  -- that is read as just that.
  pub deserialize-json_of :
      (D : Deserializer V)
      → IsLawful D
      → (b : BlockNumber) → FitsU64 b
      → deserialize R D (json_of b) ≡ ok b
  unfolding deserialize visit_str
  deserialize-json_of D L latest h = refl
  deserialize-json_of D L earliest h = refl
  deserialize-json_of D L pending h = refl
  deserialize-json_of D L (num n) h = visit_str-number_text n h
  deserialize-json_of D L (hash d require) h =
      deserialize-access R W D (block_hash d ∷ require_canonical require ∷ []) ∙ rw L.accepts refl
