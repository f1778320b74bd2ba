-- ===== src/Crates/Rlp/Sample.antt =====
-- A codec that has the laws of `IsLawful`, for the concrete runs. It is not the RLP format: an item
-- is a tag and its numbers, and a list is its items, each behind its length.
use ethereum_prototype.Base.{
  ℕ, zero, suc, ◌≡◌, refl, Bool, true, false, some, List, [], ◌∷◌, ◌++◌, map, length, get_elem?,
  Result, ok, err, ltb, ap, ◌*◌, ◌^◌, ◌<◌, lt→ltb, if◌then◌else◌,
}
use ethereum_prototype.Crates.Rlp.{
  Item, uint, bytes, fixed, Token, list_header, item, DecoderError, other, Rlp, IsLawful,
}

item_code : Item → List ℕ
item_code (uint n) = 0 ∷ n ∷ []
item_code (bytes b) = 1 ∷ b
item_code (fixed w n) = 2 ∷ w ∷ n ∷ []

items_code : List Token → List ℕ
unfolding item_code
items_code [] = []
items_code (list_header n ∷ ts) = items_code ts
items_code (item v ∷ ts) = length (item_code v) ∷ (item_code v ++ items_code ts)

sample_out : List Token → List ℕ
unfolding items_code item_code
sample_out [] = []
sample_out (list_header n ∷ ts) = 3 ∷ n ∷ items_code ts
sample_out (item v ∷ ts) = item_code v

take : ℕ → List ℕ → List ℕ
take zero xs = []
take (suc n) [] = []
take (suc n) (x ∷ xs) = x ∷ take n xs

drop : ℕ → List ℕ → List ℕ
drop zero xs = xs
drop (suc n) [] = []
drop (suc n) (x ∷ xs) = drop n xs

nth_code : ℕ → List ℕ → Result DecoderError (List ℕ)
unfolding take drop
nth_code i [] = err (other 0)
nth_code zero (n ∷ r) = ok (take n r)
nth_code (suc i) (n ∷ r) = nth_code i (drop n r)

tag_is_data : List ℕ → Bool
tag_is_data [] = false
tag_is_data (t ∷ r) = ltb t 3

code_is_empty : List ℕ → Bool
code_is_empty (suc zero ∷ []) = true
code_is_empty (suc (suc (suc n)) ∷ zero ∷ r) = true
code_is_empty _ = false

code_count : List ℕ → Result DecoderError ℕ
code_count (suc (suc (suc zero)) ∷ n ∷ r) = ok n
code_count _ = err (other 1)

code_at : List ℕ → ℕ → Result DecoderError (List ℕ)
unfolding nth_code
code_at (suc (suc (suc zero)) ∷ n ∷ r) i = nth_code i r
code_at _ i = err (other 2)

code_uint : ℕ → List ℕ → Result DecoderError ℕ
code_uint w (zero ∷ n ∷ []) = if ltb n (2 ^ w) then ok n else err (other 6)
code_uint w _ = err (other 3)

code_fixed : ℕ → List ℕ → Result DecoderError ℕ
code_fixed w (suc (suc zero) ∷ k ∷ n ∷ []) = if ltb n (2 ^ (8 * w)) then ok n else err (other 7)
code_fixed w _ = err (other 4)

code_bytes : List ℕ → Result DecoderError (List ℕ)
code_bytes (suc zero ∷ b) = ok b
code_bytes _ = err (other 5)

unfoldable pub sample : Rlp
unfolding sample_out tag_is_data code_is_empty code_count code_at code_uint code_fixed code_bytes
sample = record {
  out = sample_out;
  is_empty = code_is_empty;
  is_data = tag_is_data;
  item_count = code_count;
  at = code_at;
  as_uint = code_uint;
  as_fixed = code_fixed;
  as_bytes = code_bytes;
}

take-length : (xs ys : List ℕ) → take (length xs) (xs ++ ys) ≡ xs
unfolding take
take-length [] ys = refl
take-length (x ∷ xs) ys = ap (λ r. x ∷ r) (take-length xs ys)

drop-length : (xs ys : List ℕ) → drop (length xs) (xs ++ ys) ≡ ys
unfolding drop
drop-length [] ys = refl
drop-length (x ∷ xs) ys = drop-length xs ys

nth_code-items :
    (vs : List Item) (i : ℕ) (v : Item)
    → get_elem? vs i ≡ some v
    → nth_code i (items_code (map item vs)) ≡ ok (item_code v)
unfolding nth_code items_code
nth_code-items [] i v h = cc
nth_code-items (w ∷ vs) zero v h = cc (take-length (item_code w) (items_code (map item vs)), h)
nth_code-items (w ∷ vs) (suc i) v h =
    rw (drop-length (item_code w) (items_code (map item vs)), nth_code) (nth_code-items vs i v h)

code_uint-out : (w n : ℕ) → n < 2 ^ w → code_uint w (item_code (uint n)) ≡ ok n
unfolding code_uint item_code
code_uint-out w n h = rw (lt→ltb n (2 ^ w) h)

code_fixed-out : (w n : ℕ) → n < 2 ^ (8 * w) → code_fixed w (item_code (fixed w n)) ≡ ok n
unfolding code_fixed item_code
code_fixed-out w n h = rw (lt→ltb n (2 ^ (8 * w)) h)

pub sample-IsLawful : IsLawful sample
unfolding sample
sample-IsLawful = record {
  item_count-out_list = λ vs. refl;
  at-out_list = nth_code-items;
  as_uint-out = code_uint-out;
  as_fixed-out = code_fixed-out;
  as_bytes-out = λ b. refl;
  is_empty-out_nil = refl;
  is_data-out_nil = refl;
  is_empty-out_fixed = λ w n h. refl;
}
