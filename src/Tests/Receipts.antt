-- ===== src/Tests/Receipts.antt =====
-- The receipt of the transfer, after it and after a later call.
use ethereum_prototype.Signature.{u64_mod}
use ethereum_prototype.Base.{◌≤◌, length, ◌≡◌, ◌↔◌, refl, some, ret, ok, arith}
use ethereum_prototype.Crates.Evm.Sample as EvmSample
use ethereum_prototype.RpcTypes.{RpcReceipt}
use ethereum_prototype.Db
use ethereum_prototype.Db.{new, store_block}
use ethereum_prototype.Db.Listed.{Holds}
use ethereum_prototype.Rpc.Runtime.{with_mut_db}
use ethereum_prototype.Rpc.Eth.{transaction_receipt, submit_parsed}
use ethereum_prototype.Rpc.Eth.Steps.{Reach, here, next, submit}
use ethereum_prototype.Main.{start}
use ethereum_prototype.Main.Receipts.{transaction_receipt-Holds_iff}
use ethereum_prototype.Tests.Fixtures.{codec, crypto, evm, signed, submit-signed, rt0, rt1}

started : start codec crypto (some 100) ≡ ret rt0
unfolding start new
started = refl

submitted : (with_mut_db rt0 (submit_parsed codec crypto evm (some 101) signed)).0 ≡ rt1
unfolding with_mut_db submit_parsed
submitted = rw (submit-signed, with_mut_db, submit_parsed) refl

transfer_block : Reach codec crypto evm rt0 rt1
transfer_block = next here (submit (some 101) signed submitted)

small : length rt1.eth_db.blocks ≤ u64_mod
unfolding store_block
small = omega arith

transaction_receipt-Holds_iff_example :
    ((r : RpcReceipt) × (transaction_receipt codec crypto rt1 signed.transaction.hash
        ≡ ret (ok (some r))))
    ↔ Holds codec crypto rt1.eth_db signed.transaction.hash
transaction_receipt-Holds_iff_example =
    transaction_receipt-Holds_iff codec crypto evm 100 started transfer_block refl small
      signed.transaction.hash
