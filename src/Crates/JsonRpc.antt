-- ===== src/Crates/JsonRpc.antt =====
-- The crate jsonrpc-core as src/main.rs calls it: a `MetaIoHandler` is a table of methods by name.
pub mod Sample
use ethereum_prototype.Base.{◌≡◌, String, Option, none}
use ethereum_prototype.Base.Dict.{Dict, find, or_else, IsDistinct}

pub record JsonRpc (M : Type 0) : Type 1 where
  pub Table : Type 0
  -- the table of a new handler
  pub empty : Table
  -- `extend_with(x.to_delegate())`, with the methods of the delegate by their names
  pub extend_with : Table → Dict M → Table
  -- the method that a request with this name is handed to
  pub find_method : Table → String → Option M
  -- what a request is answered with when there is none
  pub method_not_found : String

-- A new handler has no method; one that is extended has the methods of the delegate under their
-- names, and under all others what it had.
pub record IsLawful {M : Type 0} (I : JsonRpc M) : Type 0 where
  pub find_method-empty : (name : String) → I.find_method I.empty name ≡ none
  pub find_method-extend_with :
      (table : I.Table) (delegate : Dict M) (name : String)
      → IsDistinct delegate
      → I.find_method (I.extend_with table delegate) name
        ≡ or_else (find delegate name) (I.find_method table name)
