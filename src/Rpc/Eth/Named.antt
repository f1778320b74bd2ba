-- ===== src/Rpc/Eth/Named.antt =====
-- src/rpc.rs, `EthClient::parse_number`: which block a request names, by the list of blocks alone.
use ethereum_prototype.Base.{
  ℕ, zero, suc, ◌+◌, ◌≤◌, ◌<◌, ◌≡◌, ◌≢◌, sym, ap, ◌∙◌, Option, none, some, List, [], ◌∷◌, length,
  get_elem?, get_elem?-lt, ok, arith, Option-cases, inl, inr,
}
use ethereum_prototype.Crates.Rlp.{Rlp}
use ethereum_prototype.Crates.Crypto.{Crypto}
use ethereum_prototype.Crates.Evm.{Evm}
use ethereum_prototype.Signature.{u64_mod}
use ethereum_prototype.Ethcore
use ethereum_prototype.Ethcore.{Block}
use ethereum_prototype.Db.{HashMapEthDb, best_number}
use ethereum_prototype.Db.Chain.{number_of_hash, number_of_hash_at}
use ethereum_prototype.Db.Valid.{IsValid}
use ethereum_prototype.Rpc.BlockNumber.{
  BlockNumber, hash, num, latest, earliest, pending, parse_number,
}
use ethereum_prototype.Rpc.Runtime.{Runtime}
use ethereum_prototype.Rpc.Eth.Steps.{Reach, Reach-Served}
use ethereum_prototype.Rpc.Eth.Numbers.{Continues-lt}

module _ (R : Rlp) (C : Crypto) where
  -- The block at a place is the last one with this hash.
  pub record IsLast (blocks : List Block) (h n : ℕ) : Type 0 where
    pub block : Block
    pub at : get_elem? blocks n ≡ some block
    pub hashed : Ethcore.hash R C block.header ≡ h
    pub last :
        (i : ℕ) (b : Block) → n < i → get_elem? blocks i ≡ some b → Ethcore.hash R C b.header ≢ h

  -- The place of the block that a request names: without a number, at `latest` and at `pending` the
  -- last one, at `earliest` the first one, at a hash the last one with this hash, at a number the
  -- one at this place.
  abbrev pub Names : List Block → Option BlockNumber → ℕ → Type 0
  Names blocks none n = n + 1 ≡ length blocks
  Names blocks (some latest) n = n + 1 ≡ length blocks
  Names blocks (some pending) n = n + 1 ≡ length blocks
  Names blocks (some earliest) n = (n ≡ 0) × (n < length blocks)
  Names blocks (some (hash h require_canonical)) n = IsLast blocks h n
  Names blocks (some (num m)) n = (n ≡ m) × (n < length blocks)

  pub Names-lt :
      (blocks : List Block) (number : Option BlockNumber) (n : ℕ)
      → Names blocks number n
      → n < length blocks
  Names-lt blocks none n w = omega arith
  Names-lt blocks (some latest) n w = omega arith
  Names-lt blocks (some pending) n w = omega arith
  Names-lt blocks (some earliest) n w = w.1
  Names-lt blocks (some (hash h c)) n w = get_elem?-lt blocks n w.at
  Names-lt blocks (some (num m)) n w = w.1

  number_of_hash-IsLast :
      (blocks : List Block) (h n : ℕ) (w : IsLast blocks h n)
      → number_of_hash R C blocks h ≡ some w.block.header.number
  number_of_hash-IsLast [] h n w = absurd (let e = w.at in ground arith)
  number_of_hash-IsLast (a ∷ blocks) h zero w = elim (Option-cases (number_of_hash R C blocks h)) [
    | inl new ↦ let e = w.at in let k = w.hashed in ground arith
    | inr (m, old) ↦
        let (i, b, at, counted, found) = number_of_hash_at R C blocks h m old in
        absurd (w.last (suc i) b (omega arith) at found)
  ]
  number_of_hash-IsLast (a ∷ blocks) h (suc n) w =
      let rest : IsLast blocks h n = record {
        block = w.block;
        at = w.at;
        hashed = w.hashed;
        last = λ i b later at. w.last (suc i) b (omega arith) at;
      } in
      let ih : number_of_hash R C blocks h ≡ some w.block.header.number =
        number_of_hash-IsLast blocks h n rest in
      ground arith

  module _ (db : HashMapEthDb) (v : IsValid R C db) (small : length db.blocks ≤ u64_mod) where
    best_number-eq : (n : ℕ) → n + 1 ≡ length db.blocks → best_number db ≡ n
    unfolding best_number
    best_number-eq n h = omega arith

    -- On a valid database of at most 2^64 blocks `parse_number` finds the block that is named.
    pub parse_number-Names :
        (number : Option BlockNumber) (n : ℕ)
        → Names db.blocks number n
        → parse_number number db ≡ ok n
    unfolding parse_number
    parse_number-Names none n w = ap ok (best_number-eq n w)
    parse_number-Names (some latest) n w = ap ok (best_number-eq n w)
    parse_number-Names (some pending) n w = ap ok (best_number-eq n w)
    parse_number-Names (some earliest) n w = ap ok (sym w.0)
    parse_number-Names (some (num m)) n w = ap ok (sym w.0)
    parse_number-Names (some (hash h c)) n w =
        let found = v.indexed h ∙ number_of_hash-IsLast db.blocks h n w in
        let numbered : w.block.header.number ≡ n =
          omega (arith, v.chain.number n w.block w.at, get_elem?-lt db.blocks n w.at) in
        ground arith

  module _ (E : Evm) (others : Runtime → Runtime) (rt : Runtime) (v : IsValid R C rt.eth_db)
      (reach : Reach R C E rt (others rt)) where
    -- What is named under one lock has its state under the next.
    pub state_at :
        (number : Option BlockNumber) (n : ℕ)
        → Names rt.eth_db.blocks number n
        → n < length (others rt).eth_db.accounts
    state_at number n w =
        let served = Reach-Served R C E v reach in
        omega (
          arith,
          served.kept.valid.states,
          Continues-lt R C rt.eth_db (others rt).eth_db n served.kept.continues
              (Names-lt rt.eth_db.blocks number n w),
        )
