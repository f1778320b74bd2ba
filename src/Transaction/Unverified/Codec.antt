-- ===== src/Transaction/Unverified/Codec.antt =====
-- Encoding and decoding of an `UnverifiedTransaction`.
use ethereum_prototype.Base.{ℕ, ◌^◌, ◌<◌, ◌≡◌, ◌≢◌, refl, ==_ne, List, [], ◌∷◌, ok, err, arith}
use ethereum_prototype.Crates.Rlp.{
  Rlp, IsLawful, Item, uint, bytes, fixed, out_list, out_item, rlp_incorrect_list_len,
}
use ethereum_prototype.Crates.Crypto.{Crypto}
use ethereum_prototype.Transaction.{Action, create, call, decode_action}
use ethereum_prototype.Transaction.Unverified.{
  UnverifiedTransaction, decode, rlp_bytes, compute_hash,
}

-- The values that the Rust types admit.
abbrev pub IsAddress : Action → Type 0
IsAddress create = Unit
IsAddress (call address) = address < 2 ^ 160

pub record InRange (u : UnverifiedTransaction) : Type 0 where
  pub nonce : u.unsigned.nonce < 2 ^ 256
  pub gas_price : u.unsigned.gas_price < 2 ^ 256
  pub gas : u.unsigned.gas < 2 ^ 256
  pub action : IsAddress u.unsigned.action
  pub value : u.unsigned.value < 2 ^ 256
  pub v : u.v < 2 ^ 64
  pub r : u.r < 2 ^ 256
  pub s : u.s < 2 ^ 256

action_item : Action → Item
action_item create = bytes []
action_item (call address) = fixed 20 address

sealed_items : UnverifiedTransaction → List Item
sealed_items u =
    uint t.nonce
    ∷ uint t.gas_price
    ∷ uint t.gas
    ∷ action_item t.action
    ∷ uint t.value
    ∷ bytes t.tx_data
    ∷ uint u.v
    ∷ uint u.r
    ∷ uint u.s
    ∷ []
  where
    open u use {unsigned as t}

rlp_bytes-eq-out_list :
    (R : Rlp) (nonce gas_price gas value : ℕ) (tx_data : List ℕ) (v r s hash : ℕ) (action : Action)
    → let u : UnverifiedTransaction = record {
      unsigned = record {
        nonce = nonce;
        gas_price = gas_price;
        gas = gas;
        action = action;
        value = value;
        tx_data = tx_data;
      };
      v = v;
      r = r;
      s = s;
      hash = hash;
    } in
      rlp_bytes R u ≡ out_list R (sealed_items u)
unfolding rlp_bytes sealed_items action_item
rlp_bytes-eq-out_list R nonce gas_price gas value tx_data v r s hash create = refl
rlp_bytes-eq-out_list R nonce gas_price gas value tx_data v r s hash (call address) = refl

module _ (R : Rlp) (L : IsLawful R) where
  decode_action-out_item :
      (a : Action) → IsAddress a → decode_action R (out_item R (action_item a)) ≡ ok a
  unfolding decode_action action_item
  decode_action-out_item create h = rw (L.is_empty-out_nil, L.is_data-out_nil)
  decode_action-out_item (call address) h =
      rw (L.is_empty-out_fixed 20 address (omega arith), L.as_fixed-out 20 address h)

  module _ (C : Crypto) (u : UnverifiedTransaction) (h : InRange u) where
    -- Where the crate `rlp` has its laws, decoding the encoding of a transaction whose fields fit
    -- their types gives back every field of it, with the hash recomputed.
    pub decode-rlp_bytes : decode R C (rlp_bytes R u) ≡ ok (compute_hash R C u)
    unfolding decode sealed_items compute_hash
    decode-rlp_bytes =
        let items = sealed_items u in
        let e : rlp_bytes R u ≡ out_list R items =
          rlp_bytes-eq-out_list R _ _ _ _ _ _ _ _ u.hash u.unsigned.action in
        rw (
          e,
          L.item_count-out_list items,
          L.at-out_list items 0 _ refl,
          L.at-out_list items 1 _ refl,
          L.at-out_list items 2 _ refl,
          L.at-out_list items 3 _ refl,
          L.at-out_list items 4 _ refl,
          L.at-out_list items 5 _ refl,
          L.at-out_list items 6 _ refl,
          L.at-out_list items 7 _ refl,
          L.at-out_list items 8 _ refl,
          L.as_uint-out 256 u.unsigned.nonce h.nonce,
          L.as_uint-out 256 u.unsigned.gas_price h.gas_price,
          L.as_uint-out 256 u.unsigned.gas h.gas,
          decode_action-out_item u.unsigned.action h.action,
          L.as_uint-out 256 u.unsigned.value h.value,
          L.as_bytes-out u.unsigned.tx_data,
          L.as_uint-out 64 u.v h.v,
          L.as_uint-out 256 u.r h.r,
          L.as_uint-out 256 u.s h.s,
        )

-- A list of another length is refused, whatever its items.
pub decode-wrong_length :
    (R : Rlp) (C : Crypto) (d : List ℕ) (n : ℕ)
    → R.item_count d ≡ ok n
    → n ≢ 9
    → decode R C d ≡ err rlp_incorrect_list_len
unfolding decode
decode-wrong_length R C d n e h = rw (e, ==_ne n 9 h)

-- The hash of a decoded transaction is that of the bytes that it was decoded from.
pub hash-decode :
    (R : Rlp) (C : Crypto) (d : List ℕ) {u : UnverifiedTransaction}
    → decode R C d ≡ ok u
    → u.hash ≡ C.keccak d
unfolding decode
hash-decode R C d h = ground arith
