-- ===== src/Config.antt =====
-- internal/config/config.go and policy.go: the playbook and its tasks. An optional field (a pointer in
-- the source) is an `Option`; a text that is left out is "".
pub mod Templates
pub mod Validation
pub mod Loading
use gxo.Prelude.{ℕ, String, Bool, List, Option}
use gxo.Prelude.Dict.{Dict}
use gxo.Prelude.Int.{ℤ}
use gxo.Value.{Value}

pub record StatePolicy : Type 0 where
  pub access_mode : String

pub record ChannelPolicy : Type 0 where
  pub buffer_size : Option ℤ
  pub overflow_strategy : String

pub record TaskPolicy : Type 0 where
  pub skip_on_no_input : Option Bool

pub record LoopControlConfig : Type 0 where
  pub parallel : ℤ
  pub loop_var : String

-- `backoff_factor` and `jitter` are known by their bits.
pub record RetryConfig : Type 0 where
  pub attempts : ℤ
  pub delay : String
  pub max_delay : String
  pub backoff_factor : Option ℕ
  pub jitter : Option ℕ
  pub on_error : Option Bool

pub record Task : Type 0 where
  pub name : String
  pub type : String
  pub params : Dict Value
  pub register : String
  pub stream_inputs : List String
  pub ignore_errors : Bool
  pub when : String
  pub loop : Value
  pub loop_control : Option LoopControlConfig
  pub retry : Option RetryConfig
  pub timeout : String
  pub policy : Option TaskPolicy
  pub state_policy : Option StatePolicy
  pub internal_id : String

pub record Playbook : Type 0 where
  pub name : String
  pub schema_version : String
  pub vars : Dict Value
  pub tasks : List Task
  pub task_policy : Option TaskPolicy
  pub channel_policy : Option ChannelPolicy
  pub state_policy : Option StatePolicy

abbrev pub overflow_block : String
overflow_block = "block"

abbrev pub overflow_drop_new : String
overflow_drop_new = "drop_new"

abbrev pub overflow_drop_oldest : String
overflow_drop_oldest = "drop_oldest"

abbrev pub overflow_error : String
overflow_error = "error"

abbrev pub state_access_deep_copy : String
state_access_deep_copy = "deep_copy"

abbrev pub state_access_unsafe_direct_reference : String
state_access_unsafe_direct_reference = "unsafe_direct_reference"
