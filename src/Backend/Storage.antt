-- ===== src/Backend/Storage.antt =====
-- What a change leaves in the storage of an account, for any order and repetition of its writes.
use ethereum_prototype.Base.{
  ℕ, zero, suc, ◌≡◌, refl, Bool, true, false, Option, none, some, List, [], ◌∷◌, ◌==◌,
  if◌then◌else◌, arith,
}
use ethereum_prototype.Base.Map.{
  Map, get, get-insert, get-remove, get-nil, get-remove_all, holds, keys_where, remove_all, insert,
  remove,
}
use ethereum_prototype.Backend.{write_storage, modify_storage}

-- The value of a slot: zero if the map has no entry.
abbrev pub value_of : Option ℕ → ℕ
value_of none = 0
value_of (some v) = v

-- The entry that a value is kept as: a zero has none.
abbrev pub entry_of : ℕ → Option ℕ
entry_of zero = none
entry_of (suc n) = some (suc n)

-- The last value that the writes give to a slot, or the old value.
abbrev pub last_write : List (ℕ × ℕ) → ℕ → ℕ → ℕ
last_write [] slot old = old
last_write ((index, value) ∷ writes) slot old =
    last_write writes slot (if index == slot then value else old)

pub value_of-entry_of : (n : ℕ) → value_of (entry_of n) ≡ n
value_of-entry_of zero = refl
value_of-entry_of (suc n) = refl

get-write_one :
    (value index : ℕ) (st : Map ℕ) (slot old : ℕ)
    → get st slot ≡ entry_of old
    → get (if value == 0 then remove st index else insert st index value) slot
      ≡ entry_of (if index == slot then value else old)
get-write_one zero index st slot old h = ground (arith, get-remove st index slot)
get-write_one (suc value) index st slot old h = ground (arith, get-insert st index slot (suc value))

get-write_storage :
    (writes : List (ℕ × ℕ)) (st : Map ℕ) (slot old : ℕ)
    → get st slot ≡ entry_of old
    → get (write_storage st writes) slot ≡ entry_of (last_write writes slot old)
unfolding write_storage
get-write_storage [] st slot old h = h
get-write_storage ((index, value) ∷ writes) st slot old h =
    get-write_storage writes (if value == 0 then remove st index else insert st index value) slot
      (if index == slot then value else old) (get-write_one value index st slot old h)

drop_zero : (o : Option ℕ) → (if holds (λ v. v == 0) o then none else o) ≡ entry_of (value_of o)
drop_zero none = refl
drop_zero (some zero) = refl
drop_zero (some (suc n)) = ground arith

-- Removing the zeros leaves the entries of the other values.
get-remove_zeros :
    (st : Map ℕ) (slot : ℕ)
    → get (remove_all st (keys_where st (λ v. v == 0))) slot ≡ entry_of (value_of (get st slot))
get-remove_zeros st slot = rw get-remove_all (drop_zero (get st slot))

-- After a change a slot is kept under its last written value, or under the old value (zero after a
-- reset) if nothing was written to it; and a slot whose value is zero has no entry.
pub get-modify_storage :
    (st : Map ℕ) (writes : List (ℕ × ℕ)) (reset : Bool) (slot : ℕ)
    → get (modify_storage st writes reset) slot
      ≡ entry_of (last_write writes slot (if reset then 0 else value_of (get st slot)))
unfolding modify_storage
get-modify_storage st writes true slot =
    get-write_storage writes _ slot 0 (rw (get-remove_zeros [] slot, get-nil slot))
get-modify_storage st writes false slot =
    get-write_storage writes _ slot _ (get-remove_zeros st slot)
