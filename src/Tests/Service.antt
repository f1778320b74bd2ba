-- ===== src/Tests/Service.antt =====
-- The methods by their names, arbitrary bytes, requests in a row from the start of the server, and
-- JSON objects.
use mathlib.Core.Path.{subst}
use mathlib.Core.Option.{some-injective}
use ethereum_prototype.Base.{
  ℕ, ◌≡◌, ◌↔◌, refl, String, Bool, true, Option, none, some, List, [], ◌∷◌, Result, ok, err, ret,
  sym, arith,
}
use ethereum_prototype.Base.Dict.{Dict, find, extend, or_else, map_values}
use ethereum_prototype.Crates.JsonRpc.{JsonRpc}
use ethereum_prototype.Crates.JsonRpc.Sample as JsonRpcSample
use ethereum_prototype.Crates.Json
use ethereum_prototype.Crates.Json.{Json, Value, object}
use ethereum_prototype.Crates.Serde.{Values, MapAccess, done, an_object, Deserializer}
use ethereum_prototype.RpcTypes.Json.{serialize, serialize_lem}
use ethereum_prototype.Rpc.Visitor.{deserialize, access_error}
use ethereum_prototype.Rpc.Visitor.Objects
use ethereum_prototype.Rpc.Visitor.Written.{json_of, deserialize-json_of}
use ethereum_prototype.Rpc.BlockNumber.{num}
use ethereum_prototype.Rpc.Visitor.Objects.{
  Item, require_canonical, block_hash, Writes, access, unread, named, deserialize-access,
}
use ethereum_prototype.Rpc.Eth.Accepting.{Accepted, send_raw_total}
use ethereum_prototype.Db.Valid.{IsValid}
use mathlib.Core.Option
use ethereum_prototype.Transaction.Unverified.{rlp_bytes}
use ethereum_prototype.Db.{new}
use ethereum_prototype.RpcTypes.{Bytes, Rich}
use ethereum_prototype.Rpc.Runtime.{Runtime}
use ethereum_prototype.Rpc.Eth
use ethereum_prototype.Rpc.Service.{
  Method, sha3, block_number, send_raw_transaction, hashrate, Params, handle, name_of,
}
use ethereum_prototype.Rpc.Service.Table.{handlers, find-handlers_iff}
use ethereum_prototype.Rpc.Service.Dispatch.{Request, dispatch}
use ethereum_prototype.Rpc.Service.Healthy.{Healthy-refl, Answered}
use ethereum_prototype.Rpc.Service.Answers.{IsServable, handle-Answered}
use ethereum_prototype.Middleware.{on_request}
use ethereum_prototype.Main.{Server, start, start_server, serve}
use ethereum_prototype.Main.Serving.{CanServe, CanRun, Serviced, start_server-Serviced}
use ethereum_prototype.Tests.Fixtures.{codec, crypto, evm, signed, db0, db0-IsValid, rt0, alone}

abbrev io : JsonRpc Method
io = JsonRpcSample.sample Method

find-handlers_iff_example :
    (io.find_method (handlers io) "eth_hashrate" ≡ some hashrate)
    ↔ ("eth_hashrate" ≡ name_of hashrate)
find-handlers_iff_example =
    find-handlers_iff io (JsonRpcSample.sample-IsLawful Method) "eth_hashrate" hashrate

abbrev raw : Bytes
raw = record { content = rlp_bytes codec signed.transaction }

handle-Answered_example :
    Answered codec crypto evm rt0
      (handle codec crypto evm alone (some 101) send_raw_transaction raw rt0)
handle-Answered_example =
    handle-Answered codec crypto evm rt0 refl db0-IsValid (omega arith) alone
      (Healthy-refl codec crypto evm refl db0-IsValid) (some 101) send_raw_transaction raw tt

-- Parameters are bytes or nothing; other methods' parameters are refused.
abbrev parse : (m : Method) → Option Bytes → Result String (Params m)
parse sha3 (some b) = ok b
parse send_raw_transaction (some b) = ok b
parse block_number none = ok tt
parse _ j = err "Invalid params"

abbrev best : Request (Option Bytes)
best = record { now = some 101; others = alone; name = "eth_blockNumber"; params = none }

abbrev send : Request (Option Bytes)
send = record { now = some 101; others = alone; name = "eth_sendRawTransaction"; params = some raw }

abbrev server : ℕ → Server io
server n = record { middleware = record { count = n }; table = handlers io; runtime = rt0 }

started : start_server io codec crypto (some 100) ≡ ret (server 0)
unfolding start_server start new handlers
started = refl

served : (serve io codec crypto evm parse (server 0) best).0 ≡ server 1
unfolding serve dispatch handlers handle on_request find extend name_of
served = refl

-- Requests for these two methods need nothing but the time.
IsServable-known :
    (m m' : Method)
    → some m ≡ some m'
    → ((p : Params m) → IsServable db0 (some 101) m p)
    → (p : Params m') → IsServable db0 (some 101) m' p
IsServable-known m m' same h =
    subst (λ m. (p : Params m) → IsServable db0 (some 101) m p) (some-injective m m' same) h

can_best : CanServe io codec crypto evm parse (server 0) best
unfolding find handlers extend name_of
can_best = record {
  small = omega arith;
  others = Healthy-refl codec crypto evm refl db0-IsValid;
  servable = λ m p known read. IsServable-known block_number m known (λ p. tt) p;
}

can_send : CanServe io codec crypto evm parse (server 1) send
unfolding find handlers extend name_of
can_send = record {
  small = omega arith;
  others = Healthy-refl codec crypto evm refl db0-IsValid;
  servable = λ m p known read. IsServable-known send_raw_transaction m known (λ p. tt) p;
}

can_all : CanRun io codec crypto evm parse (ret (server 0)) (best ∷ send ∷ [])
can_all =
    (can_best, (subst (λ s. CanServe io codec crypto evm parse s send) (sym served) can_send, tt))

start_server-Serviced_example :
    (s : Server io) × (start_server io codec crypto (some 100) ≡ ret s)
    × (s.table ≡ handlers io)
    × (s.middleware.count ≡ 0)
    × Serviced io codec crypto evm parse s (best ∷ send ∷ [])
start_server-Serviced_example =
    start_server-Serviced io codec crypto evm parse 100 (best ∷ send ∷ [])
      (subst (λ o. CanRun io codec crypto evm parse o (best ∷ send ∷ [])) (sym started) can_all)

-- The same submission under a clock before 1970, which panics.
abbrev late : Request (Option Bytes)
late = record { now = none; others = alone; name = "eth_sendRawTransaction"; params = some raw }

send_raw_total_example :
    (rt' : Runtime) × (reply : Result String ℕ) × (Eth.send_raw_transaction codec crypto evm
        (some 101)
        rt0
        (record { content = 1 ∷ 2 ∷ [] })
      ≡ (rt', ret reply))
    × IsValid codec crypto rt'.eth_db
    × Accepted codec crypto evm rt0 (1 ∷ 2 ∷ []) rt' reply
send_raw_total_example = send_raw_total codec crypto evm rt0 db0-IsValid refl 101 (1 ∷ 2 ∷ [])

-- JSON values that are texts, numbers or flags.
data Scalar : Type 0 where
  text : String → Scalar
  number : ℕ → Scalar
  flag : Bool → Scalar

abbrev to_string : Scalar → Result ℕ String
to_string (text s) = ok s
to_string _ = err 1

abbrev to_number : Scalar → Result ℕ ℕ
to_number (number n) = ok n
to_number _ = err 2

abbrev to_flag : Scalar → Result ℕ Bool
to_flag (flag b) = ok b
to_flag _ = err 3

abbrev values : Values Scalar
values = record { as_string = to_string; as_h256 = to_number; as_bool = to_flag }

abbrev writes : Writes values
writes = record {
  of_string = text;
  of_h256 = number;
  of_bool = flag;
  as-of_string = λ s. refl;
  as-of_h256 = λ h. refl;
  as-of_bool = λ b. refl;
}

abbrev items : List Item
items = require_canonical true ∷ block_hash 5 ∷ Objects.block_number "0x1f" ∷ block_hash 6 ∷ []

-- An object is refused if an entry is left unread.
abbrev closing : MapAccess Scalar → Option ℕ
closing done = none
closing _ = some 4

abbrev deserializer : Deserializer Scalar
deserializer = record { end_map = closing }

deserialize-access_example :
    deserialize values deserializer (an_object (access values writes items)) ≡ (elim (named items) [
      | err e ↦ err e
      | ok b ↦ elim (closing (access values writes (unread items))) [
        | none ↦ ok b
        | some e ↦ err (access_error e)
      ]
    ])
deserialize-access_example = deserialize-access values writes deserializer items

deserialize-json_of_example :
    deserialize values deserializer (json_of values writes (num 31)) ≡ ok (num 31)
deserialize-json_of_example =
    deserialize-json_of values writes deserializer (record { accepts = refl }) (num 31)
      (omega arith)

abbrev json : Json Scalar
json = record { map_to_value = λ d. ok (object (map_values text d)) }

abbrev json-IsLawful : Json.IsLawful json
json-IsLawful = record { text = text; map_to_value-object = λ d. refl }

abbrev rich : Rich ℕ
rich = record { inner = 9; extra_info = ("size", "big") ∷ [] }

-- A number as an object with two entries.
abbrev number_to_value : ℕ → Result ℕ (Value Scalar)
number_to_value n = ok (object (("size", number 1) ∷ ("value", number n) ∷ []))

abbrev serializer : Value Scalar → Result String (Value Scalar)
serializer v = ok v

serialize_lem_example :
    (value : Dict Scalar) × (serialize json number_to_value serializer (λ s. s) rich
      ≡ serializer (object value))
    × ((key : String)
        → find value key
          ≡ or_else
              (Option.map text (find rich.extra_info key))
              (find (("size", number 1) ∷ ("value", number 9) ∷ []) key))
unfolding find
serialize_lem_example =
    serialize_lem json number_to_value serializer (λ s. s) json-IsLawful rich
      (("size", number 1) ∷ ("value", number 9) ∷ []) refl (refl, tt)
