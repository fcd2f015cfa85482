-- ===== src/Tests/Joins.antt =====
-- An outer join of orders with users, by the user's id, in which one user is given as a text.
use gxo.Prelude.{
  ℕ, ◌+◌, String, true, false, not, ◌||◌, List, [], ◌∷◌, ◌++◌, map, Option, none, some, ◌≡◌, refl,
  arith, if◌then◌else◌, length, All, contains, ◌==◌,
}
use gxo.Prelude.Dict.{Dict, get, put, keys}
use gxo.Prelude.Int.{pos}
use gxo.Value.{Value, int, str}
use gxo.Errors.{Error, plain, ok, err}
use gxo.Join.Keys.{Key, parse_int}
use gxo.Join.Defs.{Record, BuildEntry, JoinKeyConfig, ModuleConfig}
use gxo.Join.Combine.{get_combinations, construct_joined_record}
use gxo.Join.Combine.Choices.{choices, first_combination, has_all, get_combinations-choices}
use gxo.Join.Build.{Arrival, Setting, exceeds, limit_exceeded, extract_key, run_build_phase}
use gxo.Join.Build.Phase.{Lasts, bad_keys, gathered}
use gxo.Join.Build.Entries.{entries_at, unmatched}
use gxo.Join.Build.Ends.{run_build_phase_gathers, run_build_phase_limit}
use gxo.Join.Probe.Reference.{bad_probes}
use gxo.Join.Perform.{waits, returned, run_phases}
use gxo.Join.Perform.Joined.{all_joined, run_phases_joins, run_phases_blocks}

abbrev user : Value → String → Record
user id who = ("id", id) ∷ ("who", str who) ∷ []

abbrev order : ℕ → String → Record
order id what = ("id", int (pos id)) ∷ ("what", str what) ∷ []

abbrev users : JoinKeyConfig
users = record {
  stream_name = "users";
  field' = "id";
  template = "";
  is_probe = false;
  input_channel = user (str "7") "ann" ∷ user (int (pos 8)) "bob" ∷ [];
}

abbrev orders : JoinKeyConfig
orders = record {
  stream_name = "orders";
  field' = "id";
  template = "";
  is_probe = true;
  input_channel = order 7 "tea" ∷ order 9 "ink" ∷ [];
}

abbrev outer_join : ModuleConfig
outer_join = record {
  join_type = "outer";
  build_streams = users ∷ [];
  probe_stream = orders;
  merge_strategy = "flat";
  nesting_keys = [];
  max_build_records = pos 0;
}

abbrev setting : Setting
setting = record {
  whole = λ v. none;
  print = λ v. "key";
  resolve = λ template context. err (plain "no template");
  all_state = [];
  err_cap = 10;
}

abbrev arrived : Record → Arrival
arrived r = record { stream = users; record' = r; ended_before = false; ended_in_send = false }

abbrev arrivals : List Arrival
arrivals = arrived (user (str "7") "ann") ∷ arrived (user (int (pos 8)) "bob") ∷ []

abbrev never : ℕ → Option Error
never t = none

text_and_number : parse_int "7" ≡ some (pos 7)
unfolding parse_int
text_and_number = refl

lasting : All Lasts arrivals
lasting = (record { before = refl; in_send = refl }, (record { before = refl; in_send = refl }, tt))

no_limit : exceeds (pos 0) (length arrivals) ≡ false
unfolding exceeds
no_limit = refl

bad_users : bad_keys setting arrivals ≡ 0
unfolding extract_key get
bad_users = refl

bad_orders : bad_probes setting outer_join orders.input_channel ≡ 0
unfolding extract_key get
bad_orders = refl

outer_joined :
    (run_phases never setting outer_join arrivals [] ([] ∷ [])).1
    ≡ ((("id", str "7") ∷ ("what", str "tea") ∷ ("who", str "ann") ∷ [])
        ∷ order 9 "ink"
        ∷ user (int (pos 8)) "bob"
        ∷ [])
      ∷ []
unfolding run_phases get put keys contains get_combinations construct_joined_record
outer_joined = refl

abbrev bobs : Dict (List BuildEntry)
bobs = ("users", unmatched (user (int (pos 8)) "bob") ∷ []) ∷ []

get_combinations-choices_example : get_combinations outer_join none bobs ≡ (
    if not (outer_join.join_type == "inner") || has_all (users ∷ []) bobs
    then choices (users ∷ []) bobs (first_combination "orders" none)
    else [])
get_combinations-choices_example = get_combinations-choices outer_join none bobs

run_build_phase_gathers_example :
    let b = run_build_phase setting outer_join arrivals [] in
    (b.build_err ≡ none)
    × (b.stuck ≡ [])
    × (b.total_build_records ≡ 2)
    × (b.records_skipped ≡ bad_keys setting arrivals)
    × ((k : Key) (n : String) → entries_at k n b.build_map ≡ gathered setting k n arrivals)
run_build_phase_gathers_example =
    run_build_phase_gathers setting outer_join arrivals [] lasting no_limit
      (omega (arith, bad_users))

abbrev limited : ModuleConfig
limited = record outer_join { max_build_records = pos 1 }

over_limit : exceeds (pos 1) (length arrivals) ≡ true
unfolding exceeds
over_limit = refl

run_build_phase_limit_example :
    (run_build_phase setting limited arrivals []).build_err ≡ some limit_exceeded
run_build_phase_limit_example =
    run_build_phase_limit setting limited arrivals [] lasting over_limit (omega (arith, bad_users))

run_phases_joins_example :
    let b = run_build_phase setting outer_join arrivals [] in
    run_phases never setting outer_join arrivals [] ([] ∷ []) ≡ (
      returned (
          ok (record {
            records_joined = length (all_joined setting outer_join b);
            probe_stream_records = 2;
            build_stream_records = 2;
            skipped_key_errors =
                bad_keys setting arrivals + bad_probes setting outer_join orders.input_channel;
          })),
      map (λ out. out ++ all_joined setting outer_join b) ([] ∷ []),
    )
run_phases_joins_example =
    run_phases_joins never setting outer_join arrivals [] ([] ∷ []) (λ t. refl) lasting no_limit
      (omega (arith, bad_users, bad_orders))

-- Users without an id, and no room for their errors.
abbrev nameless : List Arrival
nameless = arrived (("who", str "eve") ∷ []) ∷ []

abbrev full : Setting
full = record setting { err_cap = 0 }

no_limit_one : exceeds (pos 0) (length nameless) ≡ false
unfolding exceeds
no_limit_one = refl

bad_nameless : bad_keys full nameless ≡ 1
unfolding extract_key get
bad_nameless = refl

run_phases_blocks_example :
    run_phases never full outer_join nameless [] ([] ∷ []) ≡ (waits, [] ∷ [])
run_phases_blocks_example =
    run_phases_blocks never full outer_join nameless [] ([] ∷ [])
      (record { before = refl; in_send = refl }, tt) no_limit_one (omega arith)
      (omega (arith, bad_nameless))
