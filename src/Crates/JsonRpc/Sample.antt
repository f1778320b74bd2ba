-- ===== src/Crates/JsonRpc/Sample.antt =====
-- A handler that keeps its methods in a map.
use ethereum_prototype.Base.{refl, []}
use ethereum_prototype.Base.Dict.{Dict, find, extend, find-extend}
use ethereum_prototype.Crates.JsonRpc.{JsonRpc, IsLawful}

module _ (M : Type 0) where
  abbrev pub sample : JsonRpc M
  sample = record {
    Table = Dict M;
    empty = [];
    extend_with = extend;
    find_method = find;
    method_not_found = "Method not found";
  }

  pub sample-IsLawful : IsLawful sample
  unfolding find
  sample-IsLawful = record {
    find_method-empty = λ name. refl;
    find_method-extend_with = λ table delegate name h. find-extend table delegate name h;
  }
