-- ===== src/Main/Started.antt =====
-- src/main.rs: the start of the server, and its database afterwards.
use ethereum_prototype.Base.{ℕ, ◌≡◌, refl, ap, false, some, get_elem?, ret}
use ethereum_prototype.Crates.Rlp.{Rlp}
use ethereum_prototype.Crates.Crypto.{Crypto}
use ethereum_prototype.Crates.Evm.{Evm}
use ethereum_prototype.Db.Valid.{IsValid}
use ethereum_prototype.Db.Valid.Init.{new-IsValid, genesis}
use ethereum_prototype.Rpc.Runtime.{Runtime}
use ethereum_prototype.Rpc.Eth.Steps.{Reach, Reach-Served}
use ethereum_prototype.Main.{start}

module _ (R : Rlp) (C : Crypto) (E : Evm) (timestamp : ℕ) where
  -- With a clock after 1970 the server starts. Whatever requests are then served, in whatever
  -- order, the database is valid and its first block is the genesis block of the start.
  pub start-IsValid :
      (rt : Runtime) × (start R C (some timestamp) ≡ ret rt)
      × ((later : Runtime)
          → Reach R C E rt later
          → IsValid R C later.eth_db
            × (get_elem? later.eth_db.blocks 0 ≡ some (genesis R C timestamp)))
  unfolding start
  start-IsValid =
      let (db, made, v, blocks, accounts) = new-IsValid R C timestamp in
      (
        record { eth_db = db; poisoned = false },
        rw made refl,
        λ later r.
            let kept = (Reach-Served R C E v r).kept in
            (
              kept.valid,
              kept.continues 0 (genesis R C timestamp) (ap (λ bs. get_elem? bs 0) blocks),
            ),
      )
