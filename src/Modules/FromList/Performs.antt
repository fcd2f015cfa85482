-- ===== src/Modules/FromList/Performs.antt =====
-- What `Perform` of the module has sent when it returns, and that it returns.
use gxo.Prelude.{ℕ, zero, suc, Bool, true, false, [], Option, some, ◌≡◌, refl, arith, length}
use gxo.Prelude.Dict.{Dict}
use gxo.Value.{Value, Items}
use gxo.Errors.{Result, ok}
use gxo.Params.{get_required_slice}
use gxo.Modules.FromList.{
  Answer, sends, LoopEnding, goes_on, returns, hangs, Producing, produce, empty_outs, summary,
  drain, return_from, at_start, perform_items, perform,
}
use gxo.Modules.FromList.Reference.{records, faults, Exactly, AtMost}
use gxo.Modules.FromList.Sends.{Produces, produce_lem}

module _ (answers : ℕ → Answer) where
  empty_outs_lem : (n : ℕ) → Exactly [] (empty_outs n)
  empty_outs_lem zero = tt
  empty_outs_lem (suc n) = (refl, empty_outs_lem n)

  -- What holds of a result, whatever the answers are, and when it is there.
  record IsProduct (items : Items) (drained : Bool) (x : Producing × Option (Result Value))
      : Type 0 where
    at_most : AtMost (records items) x.0.outs
    exact :
        (v : Value)
        → x.1 ≡ some (ok v)
        → (v ≡ summary (length (records items)))
          × Exactly (records items) x.0.outs
          × (x.0.errs ≡ faults items)
    lasting :
        ((t : ℕ) → answers t ≡ sends)
        → drained ≡ true
        → x.1 ≡ some (ok (summary (length (records items))))

  return_from_lem :
      (items : Items) (drained : Bool) (n : ℕ) (x : Producing × LoopEnding)
      → Produces answers [] (records items) (faults items) (at_start n) x
      → IsProduct items drained (return_from drained x)
  unfolding return_from drain
  return_from_lem items true n (p, goes_on) h =
      let (here, errs, count) = h.exact refl in
      record {
        at_most = h.at_most;
        exact = λ v q.
            let counted : p.records_generated ≡ length (records items) = omega (arith, count) in
            (cc (q, counted), here, errs);
        lasting = λ l d.
            let counted : p.records_generated ≡ length (records items) = omega (arith, count) in
            cc counted;
      }
  return_from_lem items false n (p, goes_on) h = record {
    at_most = h.at_most;
    exact = λ v q. absurd (cc);
    lasting = λ l d. cc;
  }
  return_from_lem items true n (p, returns e) h = record {
    at_most = h.at_most;
    exact = λ v q. absurd (cc);
    lasting = λ l d. absurd (cc (h.lasting l));
  }
  return_from_lem items false n (p, returns e) h = record {
    at_most = h.at_most;
    exact = λ v q. absurd (cc);
    lasting = λ l d. absurd (cc (h.lasting l));
  }
  return_from_lem items drained n (p, hangs) h = record {
    at_most = h.at_most;
    exact = λ v q. absurd (cc);
    lasting = λ l d. absurd (cc (h.lasting l));
  }

  -- However the selects end, on each output channel `Perform` of generate:from_list has sent a
  -- beginning of the records that its items give. When it returns a value, it has sent all of them
  -- on each channel and reported the error of each item that gives none, and the value counts the
  -- records. It returns that value if the selects end with their sends and the inputs end.
  pub perform_sends :
      (drained : Bool) (n : ℕ) (params : Dict Value) (items : Items)
      → get_required_slice params "items" ≡ ok items
      → AtMost (records items) (perform answers drained n params).0.outs
        × ((v : Value)
            → (perform answers drained n params).1 ≡ some (ok v)
            → (v ≡ summary (length (records items)))
              × Exactly (records items) (perform answers drained n params).0.outs
              × ((perform answers drained n params).0.errs ≡ faults items))
        × (((t : ℕ) → answers t ≡ sends)
            → drained ≡ true
            → (perform answers drained n params).1 ≡ some (ok (summary (length (records items)))))
  unfolding perform perform_items
  perform_sends drained n params items e =
      let h =
        return_from_lem items drained n (produce answers items (at_start n))
          (produce_lem answers items [] (at_start n) (empty_outs_lem n)) in
      rw e (h.at_most, h.exact, h.lasting)
