-- ===== src/Modules/FromList/Reference.antt =====
-- What the module is to send and to report, item by item.
use gxo.Prelude.{List, [], ◌∷◌, ◌++◌, append_assoc, ◌≡◌, sym, ap, ◌∙◌, All, All-map}
use gxo.Value.{Items, nil, cons}
use gxo.Errors.{Error, Result, ok, err}
use gxo.Join.Defs.{Record}
use gxo.Modules.FromList.{record_of, record_error}

abbrev pub record_in : Result Record → List Record
record_in (ok r) = r ∷ []
record_in (err e) = []

abbrev pub error_in : Result Record → List Error
error_in (ok r) = []
error_in (err e) = record_error e ∷ []

-- The records of the items, and the errors of those that are none.
abbrev pub records : Items → List Record
records nil = []
records (cons item items) = record_in (record_of item) ++ records items

abbrev pub faults : Items → List Error
faults nil = []
faults (cons item items) = error_in (record_of item) ++ faults items

-- Each channel has had exactly `sent`, or a beginning of it.
abbrev pub Exactly : List Record → List (List Record) → Type 0
Exactly sent outs = All (λ out. out ≡ sent) outs

abbrev pub AtMost : List Record → List (List Record) → Type 0
AtMost sent outs = All (λ out. (rest : List Record) × (out ++ rest ≡ sent)) outs

pub Exactly-AtMost :
    (done more : List Record) (outs : List (List Record))
    → Exactly done outs
    → AtMost (done ++ more) outs
Exactly-AtMost done more outs h = All-map outs (λ out e. (more, ap (λ o. o ++ more) e)) h

pub AtMost-append :
    (sent more : List Record) (outs : List (List Record))
    → AtMost sent outs
    → AtMost (sent ++ more) outs
AtMost-append sent more outs h =
    All-map outs
      (λ out (rest, e). (rest ++ more, sym (append_assoc out rest more) ∙ ap (λ o. o ++ more) e)) h
