-- ===== src/Tests/Fixtures.antt =====
-- A small chain: the genesis block, and the block of one signed transfer.
use ethereum_prototype.Base.{
  ℕ, ◌%◌, ◌≡◌, refl, sym, ap, ◌∙◌, false, some, [], ◌∷◌, ok, ret, ret-injective,
}
use mathlib.Core.Path.{subst}
use ethereum_prototype.Crates.Rlp.{Rlp}
use ethereum_prototype.Crates.Rlp.Sample as RlpSample
use ethereum_prototype.Crates.Crypto.{Crypto, Signature}
use ethereum_prototype.Crates.Crypto.Sample as CryptoSample
use ethereum_prototype.Crates.Evm.{Evm, istanbul}
use ethereum_prototype.Crates.Evm.Sample as EvmSample
use ethereum_prototype.Base.Map.{insert}
use ethereum_prototype.Transaction
use ethereum_prototype.Transaction.{Transaction, call}
use ethereum_prototype.Transaction.Unverified.{
  UnverifiedTransaction, with_signature, is_unsigned, recover_public, signature as read_signature,
  chain_id,
}
use ethereum_prototype.Transaction.Signed.{SignedTransaction, sign}
use ethereum_prototype.Transaction.Signed.Signing.{verified}
use ethereum_prototype.Ethcore.{default_header, compute_hash}
use ethereum_prototype.Db.{HashMapEthDb, new, submit_tx}
use ethereum_prototype.Db.Valid.{IsValid}
use ethereum_prototype.Db.Valid.Init.{new-IsValid, genesis}
use ethereum_prototype.Db.Valid.Submit.{db_after}
use ethereum_prototype.Db.Submission.{submit_tx_total}
use ethereum_prototype.Rpc.Runtime.{Runtime}

abbrev pub codec : Rlp
codec = RlpSample.sample

abbrev pub crypto : Crypto
crypto = CryptoSample.sample

abbrev pub evm : Evm
evm = EvmSample.sample

-- A transfer of 5 to the address 42.
abbrev pub transfer : Transaction
transfer = record {
  nonce = 0;
  gas_price = 1;
  gas = 21000;
  action = call 42;
  value = 5;
  tx_data = 8 ∷ 9 ∷ [];
}

abbrev pub secret : ℕ
secret = 3

-- The signature of the secret for chain 7.
abbrev pub signature : Signature
signature =
    let message = Transaction.hash codec crypto transfer (some 7) in
    record { r = secret; s = message; v = message % 2 }

abbrev pub unverified : UnverifiedTransaction
unverified = with_signature codec crypto transfer signature (some 7)

abbrev pub signed : SignedTransaction
signed = verified codec crypto unverified secret

pub sign-signed : sign codec crypto transfer secret (some 7) ≡ ret signed
unfolding sign CryptoSample.sample RlpSample.sample is_unsigned with_signature recover_public
    read_signature Transaction.hash chain_id
sign-signed = refl

abbrev pub db0 : HashMapEthDb
db0 = record {
  blocks = genesis codec crypto 100 ∷ [];
  accounts = [] ∷ [];
  hash_index =
      insert [] (compute_hash codec crypto (record (default_header crypto) { timestamp = 100 })).1
        0;
  config = istanbul;
  infos = [];
}

new-db0 : new codec crypto (some 100) ≡ ret db0
unfolding new
new-db0 = refl

pub db0-IsValid : IsValid codec crypto db0
db0-IsValid =
    let (db, made, v, blocks, accounts) = new-IsValid codec crypto 100 in
    subst (IsValid codec crypto) (ret-injective (sym made ∙ new-db0)) v

-- The database after the transfer.
abbrev pub db1 : HashMapEthDb
db1 = db_after codec crypto signed 101 evm db0 (genesis codec crypto 100) []

pub submit-signed : submit_tx codec crypto evm db0 signed (some 101) ≡ ret (db1, ok tt)
unfolding submit_tx EvmSample.sample with_signature
submit-signed = refl

pub db1-IsValid : IsValid codec crypto db1
db1-IsValid =
    let (db, r, run, v, sub) = submit_tx_total codec crypto evm db0 db0-IsValid signed 101 in
    subst (IsValid codec crypto) (ap (λ p. p.0) (ret-injective (sym run ∙ submit-signed))) v

abbrev pub rt0 : Runtime
rt0 = record { eth_db = db0; poisoned = false }

abbrev pub rt1 : Runtime
rt1 = record { eth_db = db1; poisoned = false }

-- No other thread does anything.
abbrev pub alone : Runtime → Runtime
alone rt = rt
