-- ===== src/Join/Settings.antt =====
-- `parseAndValidateParams` of modules/stream/join/join.go. An input channel is what arrives on it.
use Prim.Native.String.{String}
use gxo.Prelude.{
  ℕ, suc, ◌+◌, Bool, true, false, not, ◌&&◌, ◌||◌, List, [], ◌∷◌, Option, none, some, if◌then◌else◌,
  ltb, eqb, is_some, length, ◌==◌,
}
use gxo.Prelude.Dict.{Dict, get, put}
use gxo.Prelude.Int.{ℤ, pos}
use gxo.Value.{Value, str, list, dict, Items, nil, cons}
use gxo.Errors.{validation_error, validation_caused, Result, ok, err, ◌>>=◌, ◌>>◌}
use gxo.Params.{
  Read, entries, get_required_string, get_optional_string, get_optional_map, get_optional_int,
  as_string,
}
use gxo.Join.Defs.{Record, JoinKeyConfig, ModuleConfig}

-- A value, exists, _ := of an optional parameter
abbrev pub ignore_error {ℓ} : {A : Type ℓ} → Read A → Option A
ignore_error (err e) = none
ignore_error (ok o) = o

-- if !ok { return an error with this text }
abbrev pub or_error {ℓ} : {A : Type ℓ} → String → Option A → Result A
or_error text none = err (validation_error text)
or_error text (some a) = ok a

-- if !test { return an error with this text }
abbrev pub check : Bool → String → Result (Unit {0})
check true text = ok tt
check false text = err (validation_error text)

-- if err != nil { return another error }
abbrev pub with_text {ℓ} : {A : Type ℓ} → String → Result A → Result A
with_text text (err e) = err (validation_error text)
with_text text (ok a) = ok a

abbrev pub with_cause {ℓ} : {A : Type ℓ} → String → Result A → Result A
with_cause text (err e) = err (validation_caused text e)
with_cause text (ok a) = ok a

-- cfg.joinType == "inner" || …
abbrev pub is_join_type : String → Bool
is_join_type t = t == "inner" || t == "left" || t == "right" || t == "outer"

unfoldable pub length_items : Items → ℕ
length_items nil = 0
length_items (cons v items) = suc (length_items items)

-- onList, ok := rawOn.([]interface{}), with the tests of its length
unfoldable pub on_list : ℕ → Value → Result Items
unfolding length_items
on_list inputs (list items) =
    if ltb (length_items items) 2 || not (eqb (length_items items) inputs)
    then err
        (validation_error "parameter 'on' must be a list of objects, one for each input stream")
    else ok items
on_list inputs v =
    err (validation_error "parameter 'on' must be a list of objects, one for each input stream")

-- itemMap, ok := item.(map[string]interface{})
unfoldable pub item_map : Value → Result (Dict Value)
item_map (dict fields) = ok (entries fields)
item_map v = err (validation_error "element in 'on' is not a map")

-- producerID, idOk := producerIDMap[streamName].(string)
unfoldable pub producer_id : Option Value → Result String
producer_id (some (str id)) = ok id
producer_id v = err (validation_error "internal error: producer ID not found")

-- role, roleExists, err := …; if err != nil || !roleExists { … }
unfoldable pub role_of : Read String → Result String
role_of (ok (some role)) = ok role
role_of r = err (validation_error "stream must have 'role' ('build' or 'probe')")

-- The two tests of field and template
unfoldable pub one_of : Option String → Option String → Bool
one_of field' template =
    not (is_some field' && is_some template) && (is_some field' || is_some template)

abbrev pub or_blank : Option String → String
or_blank none = ""
or_blank (some s) = s

-- allStreamConfigs and probeCount
pub record Streams : Type 0 where
  pub configs : Dict JoinKeyConfig
  pub probe_count : ℕ

module _ (producers : Dict Value) (inputs : Dict (List Record)) where
  -- The body of the loop over onList
  unfoldable pub add_stream : Value → Streams → Result Streams
  unfolding item_map producer_id role_of one_of get_required_string get_optional_string
  add_stream item streams = do
    fields ← item_map item
    name ← with_text "missing 'stream' key in element of 'on'" (get_required_string fields "stream")
    check (not (is_some (get name streams.configs))) "duplicate stream name in 'on'"
    role ← role_of (get_optional_string fields "role")
    id ← producer_id (get name producers)
    channel ← or_error "stream defined but no input channel provided by engine" (get id inputs)
    let field' = ignore_error (get_optional_string fields "field")
    let template = ignore_error (get_optional_string fields "template")
    check (one_of field' template) "stream must have exactly one of 'field' or 'template'"
    ok (record {
      configs =
          put name
            (record {
              stream_name = name;
              field' = or_blank field';
              template = or_blank template;
              is_probe = role == "probe";
              input_channel = channel;
            })
            streams.configs;
      probe_count = if role == "probe" then streams.probe_count + 1 else streams.probe_count;
    })

  -- for i, item := range onList
  unfoldable pub add_streams : Items → Streams → Result Streams
  unfolding add_stream
  add_streams nil streams = ok streams
  add_streams (cons item items) streams = add_stream item streams >>= add_streams items

abbrev pub no_stream : JoinKeyConfig
no_stream = record {
  stream_name = "";
  field' = "";
  template = "";
  is_probe = false;
  input_channel = [];
}

-- for _, streamCfg := range allStreamConfigs { if streamCfg.IsProbe { … } else { … } }
unfoldable pub build_configs : Dict JoinKeyConfig → List JoinKeyConfig
build_configs [] = []
build_configs ((name, c) ∷ configs) =
    let rest = build_configs configs in if c.is_probe then rest else c ∷ rest

unfoldable pub probe_config : JoinKeyConfig → Dict JoinKeyConfig → JoinKeyConfig
probe_config last [] = last
probe_config last ((name, c) ∷ configs) = probe_config (if c.is_probe then c else last) configs

-- for k, v := range nestingKeys
unfoldable pub string_map : Dict Value → Dict String → Result (Dict String)
string_map [] m = ok m
string_map ((k, v) ∷ given) m = do
  s ← with_text "values in 'nesting_keys' must be strings" (as_string v)
  string_map given (put k s m)

-- for _, streamCfg := range allStreamConfigs { if _, ok := cfg.nestingKeys[…]; !ok { … } }
unfoldable pub check_nesting : Dict JoinKeyConfig → Dict String → Result (Unit {0})
check_nesting [] nesting_keys = ok tt
check_nesting ((name, c) ∷ configs) nesting_keys =
    check (is_some (get c.stream_name nesting_keys)) "missing nesting_key for stream"
    >> check_nesting configs nesting_keys

-- merge_strategy: the given one, or the default
unfoldable pub merge_strategy_of : Option String → Result String
merge_strategy_of none = ok "flat"
merge_strategy_of (some val) =
    check (val == "flat" || val == "nested") "unsupported merge_strategy" >> ok val

unfoldable pub nesting_of : Bool → Dict JoinKeyConfig → Option (Dict Value) → Result (Dict String)
unfolding string_map check_nesting
nesting_of false configs given = ok []
nesting_of true configs none =
    err (validation_error "'nesting_keys' is required for nested merge_strategy")
nesting_of true configs (some given) = do
  nesting_keys ← string_map given []
  check_nesting configs nesting_keys
  ok nesting_keys

-- if outputParams, exists, _ := …; exists { … }
unfoldable pub output_of : Dict JoinKeyConfig → Option (Dict Value) → Result (String × Dict String)
unfolding merge_strategy_of nesting_of get_optional_string get_optional_map
output_of configs none = ok ("flat", [])
output_of configs (some output) = do
  strategy ← merge_strategy_of (ignore_error (get_optional_string output "merge_strategy"))
  nesting_keys ←
      nesting_of (strategy == "nested") configs
        (ignore_error (get_optional_map output "nesting_keys"))
  ok (strategy, nesting_keys)

abbrev pub or_zero : Option ℤ → ℤ
or_zero none = pos 0
or_zero (some n) = n

-- if limitsParams, exists, _ := …; exists { … }
unfoldable pub limit_of : (Value → Option ℤ) → Option (Dict Value) → Result ℤ
unfolding get_optional_int
limit_of whole none = ok (pos 0)
limit_of whole (some limits) = do
  max ← get_optional_int whole limits "max_build_records"
  ok (or_zero max)

abbrev pub or_none : Option (Dict Value) → Dict Value
or_none none = []
or_none (some m) = m

-- parseAndValidateParams
unfoldable pub parse_and_validate_params :
    (Value → Option ℤ) → Dict Value → Dict (List Record) → Result ModuleConfig
unfolding add_streams on_list output_of limit_of build_configs probe_config get_optional_map
    get_required_string
parse_and_validate_params whole params inputs = do
  producers ←
      with_cause "internal error: could not read _gxo_producer_id_map_"
        (get_optional_map params "_gxo_producer_id_map_")
  join_type ← get_required_string params "join_type"
  check (is_join_type join_type) "unsupported join_type"
  raw_on ← or_error "missing required parameter 'on'" (get "on" params)
  items ← on_list (length inputs) raw_on
  streams ← add_streams (or_none producers) inputs items (record { configs = []; probe_count = 0 })
  check (eqb streams.probe_count 1) "exactly one stream must have role 'probe'"
  output ← output_of streams.configs (ignore_error (get_optional_map params "output"))
  max ← limit_of whole (ignore_error (get_optional_map params "limits"))
  ok (record {
    join_type = join_type;
    build_streams = build_configs streams.configs;
    probe_stream = probe_config no_stream streams.configs;
    merge_strategy = output.0;
    nesting_keys = output.1;
    max_build_records = max;
  })
