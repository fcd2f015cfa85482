-- ===== src/Modules/FromList.antt =====
-- modules/generate/from_list/from_list.go. A channel is the list of what has been sent on it. A select
-- is one question to `answers`, since the scheduler and the readers of the channels decide how it ends.
pub mod Reference
pub mod Sends
pub mod Performs
use gxo.Prelude.{
  ℕ, zero, suc, ◌+◌, String, Bool, List, [], ◌∷◌, ◌++◌, Option, none, some, if◌then◌else◌,
}
use gxo.Prelude.Dict.{Dict, put}
use gxo.Prelude.Int.{pos}
use gxo.Value.{
  Value, null, bool, int, sized_int, float32, float64, str, strings, list, dict, generic, other,
  w64, Items, nil, cons, Fields, end, field, Pairs, stop, pair,
}
use gxo.Errors.{Error, plain, wrapped, record_processing, Result, ok, err, ◌>>=◌}
use gxo.Params.{get_required_slice, entries}
use gxo.Join.Defs.{Record}

-- How a select on a send and on ctx.Done() ends, if it does.
pub data Answer : Type 0 where
  sends : Answer
  stops : Error → Answer
  waits : Answer

-- How a part of the loop ends: with its end, with a return of ctx.Err(), or not at all.
pub data LoopEnding : Type 0 where
  goes_on : LoopEnding
  returns : Error → LoopEnding
  hangs : LoopEnding

-- the loop of convertMap
unfoldable pub convert_pairs : Pairs → Record → Result Record
convert_pairs stop msi = ok msi
convert_pairs (pair (str k) v mii) msi = convert_pairs mii (put k v msi)
convert_pairs (pair k v mii) msi = err (plain "key is not a string")

unfoldable pub convert_map : Pairs → Result Record
unfolding convert_pairs
convert_map mii = convert_pairs mii []

abbrev pub with_index : Result Record → Result Record
with_index (err e) = err (wrapped "item has non-string keys" e)
with_index (ok r) = ok r

-- switch v := item.(type) { … }
unfoldable pub record_of : Value → Result Record
unfolding entries convert_map
record_of (dict fields) = ok (entries fields)
record_of (generic mii) = with_index (convert_map mii)
record_of v = ok (("item", v) ∷ [])

abbrev pub record_error : Error → Error
record_error e = record_processing "generate:from_list" e

pub record Producing : Type 0 where
  pub outs : List (List Record)
  pub errs : List Error
  pub asked : ℕ
  pub records_generated : ℕ

-- select { case out <- record: …; case <-ctx.Done(): … }
unfoldable pub send_on :
    Answer
    → ℕ
    → Record
    → List Record
    → List (List Record)
    → List (List Record) × ℕ × LoopEnding
    → List (List Record) × ℕ × LoopEnding
send_on sends t r out outs rest = ((out ++ r ∷ []) ∷ rest.0, rest.1, rest.2)
send_on (stops e) t r out outs rest = (out ∷ outs, suc t, returns e)
send_on waits t r out outs rest = (out ∷ outs, suc t, hangs)

-- recordsGenerated++ after the loop
unfoldable pub count_sent : List (List Record) × ℕ × LoopEnding → Producing → Producing × LoopEnding
count_sent (outs, t, goes_on) p =
    (record p { outs = outs; asked = t; records_generated = p.records_generated + 1 }, goes_on)
count_sent (outs, t, ending) p = (record p { outs = outs; asked = t }, ending)

-- select { case errChan <- err: continue; case <-ctx.Done(): … }
unfoldable pub send_error : Answer → Error → Producing → Producing × LoopEnding
send_error sends e p =
    (record p { errs = p.errs ++ record_error e ∷ []; asked = suc p.asked }, goes_on)
send_error (stops e') e p = (record p { asked = suc p.asked }, returns e')
send_error waits e p = (record p { asked = suc p.asked }, hangs)

unfoldable pub after_item :
    Producing × LoopEnding → (Producing → Producing × LoopEnding) → Producing × LoopEnding
after_item (p, goes_on) rest = rest p
after_item (p, ending) rest = (p, ending)

abbrev pub empty_outs : ℕ → List (List Record)
empty_outs zero = []
empty_outs (suc n) = [] ∷ empty_outs n

abbrev pub summary : ℕ → Value
summary n = dict (field "records_generated" (sized_int w64 (pos n)) end)

-- drainWg.Wait() before each return: it lasts until the inputs have ended
unfoldable pub drain : Bool → Result Value → Option (Result Value)
drain drained result = if drained then some result else none

unfoldable pub return_from : Bool → Producing × LoopEnding → Producing × Option (Result Value)
unfolding drain
return_from drained (p, goes_on) = (p, drain drained (ok (summary p.records_generated)))
return_from drained (p, returns e) = (p, drain drained (err e))
return_from drained (p, hangs) = (p, none)

abbrev pub at_start : ℕ → Producing
at_start n = record { outs = empty_outs n; errs = []; asked = 0; records_generated = 0 }

module _ (answers : ℕ → Answer) where
  -- for j, out := range outputChans
  unfoldable pub send_each : ℕ → Record → List (List Record) → List (List Record) × ℕ × LoopEnding
  unfolding send_on
  send_each t r [] = ([], t, goes_on)
  send_each t r (out ∷ outs) = send_on (answers t) t r out outs (send_each (suc t) r outs)

  unfoldable pub produce_record : Result Record → Producing → Producing × LoopEnding
  unfolding send_each count_sent send_error
  produce_record (err e) p = send_error (answers p.asked) e p
  produce_record (ok r) p = count_sent (send_each p.asked r p.outs) p

  -- for i, item := range items
  unfoldable pub produce : Items → Producing → Producing × LoopEnding
  unfolding produce_record record_of after_item
  produce nil p = (p, goes_on)
  produce (cons item items) p = after_item (produce_record (record_of item) p) (produce items)

  unfoldable pub perform_items : Bool → ℕ → Result Items → Producing × Option (Result Value)
  unfolding produce return_from
  perform_items drained n (err e) = (at_start n, drain drained (err e))
  perform_items drained n (ok items) = return_from drained (produce items (at_start n))

  -- Perform, with `n` output channels: `none` where it does not return.
  unfoldable pub perform : Bool → ℕ → Dict Value → Producing × Option (Result Value)
  unfolding perform_items get_required_slice
  perform drained n params = perform_items drained n (get_required_slice params "items")
