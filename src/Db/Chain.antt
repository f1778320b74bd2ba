-- ===== src/Db/Chain.antt =====
-- The list of blocks as a chain: numbers, memoised hashes, parents, and the index by hash.
use ethereum_prototype.Base.{
  ℕ, suc, ◌+◌, ◌-◌, ◌%◌, ◌<◌, ◌≡◌, refl, Option, none, some, List, [], ◌∷◌, ◌==◌, if◌then◌else◌,
  arith, length, get_elem?, get_last?, push, get_elem?-push, get_elem?-lt, get_last?-get_elem?,
  length-push, Option-cases, inl, inr,
}
use ethereum_prototype.Crates.Rlp.{Rlp}
use ethereum_prototype.Crates.Crypto.{Crypto}
use ethereum_prototype.Signature.{u64_mod}
use ethereum_prototype.Ethcore.{Block, Header, hash}
use ethereum_prototype.Ethcore.Hashes.{IsFresh}

module _ (R : Rlp) (C : Crypto) where
  -- A chain: the block at index i has number i (a `u64`), a memo that agrees with its encoding,
  -- and the hash of the block before it as its parent.
  pub record IsChain (blocks : List Block) : Type 0 where
    pub pos : 0 < length blocks
    pub number : (i : ℕ) (b : Block) → get_elem? blocks i ≡ some b → b.header.number ≡ i % u64_mod
    pub fresh : (i : ℕ) (b : Block) → get_elem? blocks i ≡ some b → IsFresh R C b.header
    pub linked :
        (i : ℕ) (a b : Block)
        → get_elem? blocks i ≡ some a
        → get_elem? blocks (suc i) ≡ some b
        → b.header.parent_hash ≡ hash R C a.header

  -- A block that may follow `best`.
  pub record Follows (best : Block) (b : Block) : Type 0 where
    pub number : b.header.number ≡ (best.header.number + 1) % u64_mod
    pub fresh : IsFresh R C b.header
    pub parent : b.header.parent_hash ≡ hash R C best.header

  module _ (blocks : List Block) (best block : Block) (c : IsChain blocks)
      (last : get_last? blocks ≡ some best) (f : Follows best block) where
    best_at : (i : ℕ) → suc i ≡ length blocks → get_elem? blocks i ≡ some best
    best_at i e = get_last?-get_elem? blocks last i e

    next_number : block.header.number ≡ length blocks % u64_mod
    next_number =
        let p = length blocks - 1 in
        let h : suc p ≡ length blocks = omega (arith, c.pos) in
        omega (arith, f.number, c.number p best (best_at p h), c.pos)

    push-number :
        (i : ℕ) (b : Block)
        → get_elem? (push blocks block) i ≡ some b
        → b.header.number ≡ i % u64_mod
    push-number i b h = ground (arith, get_elem?-push blocks block i, c.number i b, next_number)

    push-IsFresh :
        (i : ℕ) (b : Block) → get_elem? (push blocks block) i ≡ some b → IsFresh R C b.header
    push-IsFresh i b h = ground (arith, get_elem?-push blocks block i, c.fresh i b)

    push-linked :
        (i : ℕ) (a b : Block)
        → get_elem? (push blocks block) i ≡ some a
        → get_elem? (push blocks block) (suc i) ≡ some b
        → b.header.parent_hash ≡ hash R C a.header
    push-linked i a b h k = ground (
      arith,
      get_elem?-push blocks block i,
      get_elem?-push blocks block (suc i),
      c.linked i a b,
      best_at i,
      f.parent,
      get_elem?-lt blocks (suc i) {a = b},
    )

    pub push-IsChain : IsChain (push blocks block)
    push-IsChain = record {
      pos = omega (arith, length-push blocks block);
      number = push-number;
      fresh = push-IsFresh;
      linked = push-linked;
    }

  -- The number of the last block with a given hash.
  abbrev or_number : Option ℕ → Header → ℕ → Option ℕ
  or_number (some n) header h = some n
  or_number none header h = if hash R C header == h then some header.number else none

  abbrev pub number_of_hash : List Block → ℕ → Option ℕ
  number_of_hash [] h = none
  number_of_hash (b ∷ blocks) h = or_number (number_of_hash blocks h) b.header h

  pub number_of_hash-push :
      (blocks : List Block) (b : Block) (h : ℕ)
      → number_of_hash (push blocks b) h
        ≡ (if hash R C b.header == h then some b.header.number else number_of_hash blocks h)
  number_of_hash-push [] b h = refl
  number_of_hash-push (a ∷ blocks) b h = ground (arith, number_of_hash-push blocks b h)

  -- The index names a block of the list with the hash that was asked for.
  pub number_of_hash_at :
      (blocks : List Block) (h n : ℕ)
      → number_of_hash blocks h ≡ some n
      → (i : ℕ) × (b : Block) × (get_elem? blocks i ≡ some b)
        × (b.header.number ≡ n)
        × (hash R C b.header ≡ h)
  number_of_hash_at [] h n e = cc
  number_of_hash_at (a ∷ blocks) h n e = elim (Option-cases (number_of_hash blocks h)) [
    | inl new ↦ (0, a, refl, ground arith, ground arith)
    | inr (m, old) ↦
        let (i, b, at, num, found) = number_of_hash_at blocks h m old in
        (suc i, b, at, ground arith, found)
  ]

  pub number_of_hash-lt :
      (blocks : List Block) (h n : ℕ)
      → IsChain blocks
      → number_of_hash blocks h ≡ some n
      → n < length blocks
  number_of_hash-lt blocks h n c e =
      let (i, b, at, num, found) = number_of_hash_at blocks h n e in
      omega (arith, c.number i b at, get_elem?-lt blocks i at)
