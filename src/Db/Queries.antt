-- ===== src/Db/Queries.antt =====
-- `call` and `estimate_gas`: when they panic, and what they leave of the database.
use ethereum_prototype.Base.{
  ℕ, ◌≤◌, ◌<◌, ◌≡◌, refl, Option, some, List, get_last?, get_elem?, set, length, get_elem?-of_lt,
  get_last?-of_pos, ◌≢◌, get_elem?-of_le, ret, panic, arith,
}
use ethereum_prototype.Crates.Evm.{Evm, ExitReason}
use ethereum_prototype.Ethcore.{Block}
use ethereum_prototype.Backend
use ethereum_prototype.Backend.{Accounts, EthDbBackend, execute}
use ethereum_prototype.Db.{HashMapEthDb, call, estimate_gas, query_backend, or_empty}

module _ (E : Evm) (db : HashMapEthDb) (n caller : ℕ) where
  -- A call for a block that there is runs over the accounts after that block.
  pub call_lem :
      (address : ℕ) (input : List ℕ) (accounts : Accounts) (best : Block)
      → get_elem? db.accounts n ≡ some accounts
      → get_last? db.blocks ≡ some best
      → call E db n caller address input
        ≡ ret
            (db, Backend.call E (query_backend accounts caller best db.config) caller address input)
  unfolding call
  call_lem address input accounts best at last = rw (at, last, call) refl

  -- A call never changes the database.
  pub call_keeps :
      (address : ℕ) (input : List ℕ) {db' : HashMapEthDb} {r : ExitReason × List ℕ × ℕ}
      → call E db n caller address input ≡ ret (db', r)
      → db' ≡ db
  unfolding call
  call_keeps address input h = ground arith

  -- A call for a block past the best one panics.
  pub call_panics :
      (address : ℕ) (input : List ℕ)
      → length db.accounts ≤ n
      → call E db n caller address input ≡ panic
  unfolding call
  call_panics address input h = rw (get_elem?-of_le db.accounts n h)

  pub estimate_gas_panics :
      (value : ℕ) (to : Option ℕ) (input : List ℕ)
      → length db.accounts ≤ n
      → estimate_gas E db n caller value to input ≡ panic
  unfolding estimate_gas
  estimate_gas_panics value to input h = rw (get_elem?-of_le db.accounts n h)

  -- For a block that there is, neither panics.
  pub call_total :
      (address : ℕ) (input : List ℕ)
      → n < length db.accounts
      → 0 < length db.blocks
      → call E db n caller address input ≢ panic
  unfolding call
  call_total address input h k e =
      let (a, at) = get_elem?-of_lt db.accounts n h in
      let (b, last) = get_last?-of_pos db.blocks k in ground arith

  pub estimate_gas_total :
      (value : ℕ) (to : Option ℕ) (input : List ℕ)
      → n < length db.accounts
      → 0 < length db.blocks
      → estimate_gas E db n caller value to input ≢ panic
  unfolding estimate_gas
  estimate_gas_total value to input h k e =
      let (a, at) = get_elem?-of_lt db.accounts n h in
      let (b, last) = get_last?-of_pos db.blocks k in ground arith

  pub estimate_gas_blocks :
      (value : ℕ) (to : Option ℕ) (input : List ℕ) {db' : HashMapEthDb}
      {r : ExitReason × List ℕ × ℕ}
      → estimate_gas E db n caller value to input ≡ ret (db', r)
      → db'.blocks ≡ db.blocks
  unfolding estimate_gas
  estimate_gas_blocks value to input h = ground arith

  pub estimate_gas_infos :
      (value : ℕ) (to : Option ℕ) (input : List ℕ) {db' : HashMapEthDb}
      {r : ExitReason × List ℕ × ℕ}
      → estimate_gas E db n caller value to input ≡ ret (db', r)
      → db'.infos ≡ db.infos
  unfolding estimate_gas
  estimate_gas_infos value to input h = ground arith

  module _ (value : ℕ) (to : Option ℕ) (input : List ℕ) (accounts : Accounts) (best : Block)
      (at : get_elem? db.accounts n ≡ some accounts) (last : get_last? db.blocks ≡ some best) where
    -- The backend that an estimate runs on: the accounts after block `n`, and the best block.
    abbrev pub asked : EthDbBackend
    asked = query_backend accounts caller best db.config

    abbrev run : EthDbBackend × (ExitReason × Option (List ℕ) × ℕ)
    run = execute E asked caller value to input

    abbrev estimated : HashMapEthDb
    estimated = record db { accounts = set db.accounts n run.0.accounts }

    pub estimate_gas_lem :
        estimate_gas E db n caller value to input
        ≡ ret (estimated, (run.1.0, or_empty run.1.1, run.1.2))
    unfolding estimate_gas
    estimate_gas_lem = rw (at, last, estimate_gas) refl
