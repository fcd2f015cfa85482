-- ===== src/Join/Defs.antt =====
-- The data of modules/stream/join/join.go. A record is a `map[string]interface{}`; a channel is the list
-- of the records that arrive on it before it is closed.
use gxo.Prelude.{String, Bool, List}
use gxo.Prelude.Dict.{Dict}
use gxo.Prelude.Int.{ℤ}
use gxo.Value.{Value}

abbrev pub Record : Type 0
Record = Dict Value

pub record BuildEntry : Type 0 where
  pub record' : Record
  pub matched : Bool

pub record JoinKeyConfig : Type 0 where
  pub stream_name : String
  pub field' : String
  pub template : String
  pub is_probe : Bool
  pub input_channel : List Record

pub record ModuleConfig : Type 0 where
  pub join_type : String
  pub build_streams : List JoinKeyConfig
  pub probe_stream : JoinKeyConfig
  pub merge_strategy : String
  pub nesting_keys : Dict String
  pub max_build_records : ℤ
