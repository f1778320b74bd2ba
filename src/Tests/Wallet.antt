-- ===== src/Tests/Wallet.antt =====
-- The transfer from the wallet to its receipt.
use ethereum_prototype.Base.{ℕ, ◌≡◌, refl, String, some, Result, ok, err, ret, arith}
use ethereum_prototype.Crates.JsonRpc.{JsonRpc}
use ethereum_prototype.Crates.JsonRpc.Sample as JsonRpcSample
use ethereum_prototype.Crates.Rlp.Sample as RlpSample
use ethereum_prototype.Crates.Crypto.Sample as CryptoSample
use ethereum_prototype.Transaction.Unverified.{rlp_bytes}
use ethereum_prototype.RpcTypes.{Bytes}
use ethereum_prototype.Rpc.Service.{
  Method, Params, send_raw_transaction, transaction_receipt, name_of,
}
use ethereum_prototype.Rpc.Service.Table.{handlers}
use ethereum_prototype.Rpc.Service.Dispatch.{Request, tag_result}
use ethereum_prototype.Main.{Server, serve}
use ethereum_prototype.Main.Wallet.{Told, receipt-send-sign}
use ethereum_prototype.Tests.Transactions.{unverified-InRange}
use ethereum_prototype.Tests.Fixtures.{
  codec, crypto, evm, transfer, secret, signed, sign-signed, db0-IsValid, rt0, alone,
}

-- The parameters of the two requests, as they travel.
data Sent : Type 0 where
  of_bytes : Bytes → Sent
  of_hash : ℕ → Sent

abbrev parse : (m : Method) → Sent → Result String (Params m)
parse send_raw_transaction (of_bytes b) = ok b
parse transaction_receipt (of_hash h) = ok h
parse _ j = err "Invalid params"

abbrev io : JsonRpc Method
io = JsonRpcSample.sample Method

abbrev server : Server io
server = record { middleware = record { count = 0 }; table = handlers io; runtime = rt0 }

abbrev send : Request Sent
send = record {
  now = some 101;
  others = alone;
  name = "eth_sendRawTransaction";
  params = of_bytes (record { content = rlp_bytes codec signed.transaction });
}

abbrev ask : ℕ → Request Sent
ask h = record {
  now = some 102;
  others = alone;
  name = "eth_getTransactionReceipt";
  params = of_hash h;
}

receipt-send-sign_example :
    (reply : Result String ℕ) × ((serve io codec crypto evm parse server send).1
      ≡ ret (tag_result send_raw_transaction reply))
    × Told io codec crypto evm parse server signed
        (crypto.public_to_address (CryptoSample.sample-IsLawful.public_of secret))
        (serve io codec crypto evm parse server send).0
        ask
        reply
unfolding name_of
receipt-send-sign_example =
    receipt-send-sign io codec crypto evm parse (JsonRpcSample.sample-IsLawful Method)
      RlpSample.sample-IsLawful CryptoSample.sample-IsLawful server refl refl db0-IsValid
      (omega arith) transfer secret 101 (some 7) send ask
      (CryptoSample.is_secret-sample secret (omega arith)) (omega arith) sign-signed
      unverified-InRange refl refl refl (λ h. refl) (λ h. refl)
