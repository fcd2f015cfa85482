-- ===== src/Tests/Producers.antt =====
-- Runs of generate:from_list.
use gxo.Prelude.{ℕ, zero, suc, true, [], ◌∷◌, some, ◌≡◌, refl, length}
use gxo.Prelude.Dict.{Dict, get}
use gxo.Prelude.Int.{pos}
use gxo.Value.{Value, int, str, list, dict, generic, Items, nil, cons, end, field, stop, pair}
use gxo.Errors.{canceled, plain, wrapped, ok, err}
use gxo.Params.{get_required_slice}
use gxo.Modules.FromList.{Answer, sends, stops, record_error, summary, perform}
use gxo.Modules.FromList.Reference.{AtMost, Exactly, records, faults}
use gxo.Modules.FromList.Performs.{perform_sends}

-- a map, a map with a key that is not a text, and a number
abbrev items : Items
items =
    cons (dict (field "id" (int (pos 1)) end))
      (cons (generic (pair (int (pos 0)) (str "x") stop)) (cons (int (pos 7)) nil))

abbrev params : Dict Value
params = ("items", list items) ∷ []

abbrev all_sent : ℕ → Answer
all_sent t = sends

-- the context ends at the second channel
abbrev cut_off : ℕ → Answer
cut_off zero = sends
cut_off (suc t) = stops canceled

two_channels : perform all_sent true 2 params ≡ (
  record {
    outs =
        ((("id", int (pos 1)) ∷ []) ∷ (("item", int (pos 7)) ∷ []) ∷ [])
        ∷ ((("id", int (pos 1)) ∷ []) ∷ (("item", int (pos 7)) ∷ []) ∷ [])
        ∷ [];
    errs = record_error (wrapped "item has non-string keys" (plain "key is not a string")) ∷ [];
    asked = 5;
    records_generated = 2;
  },
  some (ok (summary 2)),
)
unfolding perform get
two_channels = refl

cut_off_between : perform cut_off true 2 params ≡ (
  record {
    outs = ((("id", int (pos 1)) ∷ []) ∷ []) ∷ [] ∷ [];
    errs = [];
    asked = 2;
    records_generated = 0;
  },
  some (err canceled),
)
unfolding perform get
cut_off_between = refl

reads : get_required_slice params "items" ≡ ok items
unfolding get_required_slice get
reads = refl

perform_sends_example :
    AtMost (records items) (perform all_sent true 2 params).0.outs
    × ((v : Value)
        → (perform all_sent true 2 params).1 ≡ some (ok v)
        → (v ≡ summary (length (records items)))
          × Exactly (records items) (perform all_sent true 2 params).0.outs
          × ((perform all_sent true 2 params).0.errs ≡ faults items))
    × (((t : ℕ) → all_sent t ≡ sends)
        → true ≡ true
        → (perform all_sent true 2 params).1 ≡ some (ok (summary (length (records items)))))
perform_sends_example = perform_sends all_sent true 2 params items reads
