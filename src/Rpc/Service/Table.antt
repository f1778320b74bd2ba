-- ===== src/Rpc/Service/Table.antt =====
-- src/main.rs, `main`: the handler is extended with the methods of the three traits.
use text.Mathlib.Text.{◌==◌ as str_eq}
use text.Mathlib.TextEquality.{eq_iff}
use ethereum_prototype.Base.{
  ◌≡◌, refl, sym, ap, ◌∙◌, ◌↔◌, inl, inr, Bool-cases, Option-cases, String, Option, none, some,
  List, [], ◌∷◌, arith,
}
use ethereum_prototype.Base.Dict.{Dict, find, or_else, IsDistinct}
use ethereum_prototype.Crates.JsonRpc.{JsonRpc, IsLawful}
use ethereum_prototype.Rpc.Service.{
  Method, client_version, sha3, version, peer_count, is_listening, protocol_version, author,
  syncing, is_mining, chain_id, gas_price, accounts, block_number, send_raw_transaction, call,
  hashrate, balance, block_by_number, estimate_gas, transaction_count, transaction_receipt, name_of,
  web3_methods, net_methods, eth_methods,
}

-- `to_delegate()`: methods by their names.
abbrev pub delegate : List Method → Dict Method
delegate [] = []
delegate (m ∷ ms) = (name_of m, m) ∷ delegate ms

-- The three calls of `extend_with` in `main`.
unfoldable pub handlers : (I : JsonRpc Method) → I.Table
handlers I =
    let net = I.extend_with I.empty (delegate net_methods) in
    let web3 = I.extend_with net (delegate web3_methods) in
    I.extend_with web3 (delegate eth_methods)

net-IsDistinct : IsDistinct (delegate net_methods)
unfolding find name_of
net-IsDistinct = (refl, (refl, (refl, tt)))

web3-IsDistinct : IsDistinct (delegate web3_methods)
unfolding find name_of
web3-IsDistinct = (refl, (refl, tt))

eth-IsDistinct : IsDistinct (delegate eth_methods)
unfolding find name_of
eth-IsDistinct = (
  refl,
  (
    refl,
    (
      refl,
      (
        refl,
        (
          refl,
          (
            refl,
            (refl, (refl, (refl, (refl, (refl, (refl, (refl, (refl, (refl, (refl, tt)))))))))),
          ),
        ),
      ),
    ),
  ),
)

find-delegate :
    (ms : List Method) (name : String) (m : Method)
    → find (delegate ms) name ≡ some m
    → name ≡ name_of m
unfolding find
find-delegate [] name m e = cc
find-delegate (m' ∷ ms) name m e = elim (Bool-cases (str_eq (name_of m') name)) [
  | inl here ↦
      let same : m' ≡ m = ground arith in sym ((eq_iff (name_of m') name).0 here) ∙ ap name_of same
  | inr there ↦ find-delegate ms name m (ground arith)
]

-- What the three delegates have under a name.
abbrev found : String → Option Method
found name =
    or_else (find (delegate eth_methods) name) (
      or_else (find (delegate web3_methods) name) (or_else (find (delegate net_methods) name) none))

found-name_of : (m : Method) → found (name_of m) ≡ some m
unfolding find name_of
found-name_of client_version = refl
found-name_of sha3 = refl
found-name_of version = refl
found-name_of peer_count = refl
found-name_of is_listening = refl
found-name_of protocol_version = refl
found-name_of author = refl
found-name_of syncing = refl
found-name_of is_mining = refl
found-name_of chain_id = refl
found-name_of gas_price = refl
found-name_of accounts = refl
found-name_of block_number = refl
found-name_of send_raw_transaction = refl
found-name_of call = refl
found-name_of hashrate = refl
found-name_of balance = refl
found-name_of block_by_number = refl
found-name_of estimate_gas = refl
found-name_of transaction_count = refl
found-name_of transaction_receipt = refl

name-found : (name : String) (m : Method) → found name ≡ some m → name ≡ name_of m
name-found name m e = elim (Option-cases (find (delegate eth_methods) name)) [
  | inr (m', at) ↦ find-delegate eth_methods name m (ground arith)
  | inl no_eth ↦ elim (Option-cases (find (delegate web3_methods) name)) [
    | inr (m', at) ↦ find-delegate web3_methods name m (ground arith)
    | inl no_web3 ↦
        find-delegate net_methods name m
          (ground (arith, Option-cases (find (delegate net_methods) name)))
  ]
]

module _ (I : JsonRpc Method) (L : IsLawful I) where
  find-handlers : (name : String) → I.find_method (handlers I) name ≡ found name
  unfolding handlers
  find-handlers name =
      let net = I.extend_with I.empty (delegate net_methods) in
      let web3 = I.extend_with net (delegate web3_methods) in
      L.find_method-extend_with web3 (delegate eth_methods) name eth-IsDistinct
      ∙ ap (or_else (find (delegate eth_methods) name)) (
          L.find_method-extend_with net (delegate web3_methods) name web3-IsDistinct
          ∙ ap (or_else (find (delegate web3_methods) name)) (
              L.find_method-extend_with I.empty (delegate net_methods) name net-IsDistinct
              ∙ ap (or_else (find (delegate net_methods) name)) (L.find_method-empty name)))

  -- Where the handler is extended as documented, the server answers to a name with a method exactly
  -- if that is the method's name: no method of the three traits is missing, and none hides another.
  pub find-handlers_iff :
      (name : String) (m : Method) → (I.find_method (handlers I) name ≡ some m) ↔ (name ≡ name_of m)
  find-handlers_iff name m = (
    λ h. name-found name m (sym (find-handlers name) ∙ h),
    λ h. find-handlers name ∙ ap found h ∙ found-name_of m,
  )
