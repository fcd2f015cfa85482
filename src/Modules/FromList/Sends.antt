-- ===== src/Modules/FromList/Sends.antt =====
-- What the loop of the module sends and reports.
use gxo.Prelude.{
  ℕ, suc, ◌+◌, List, [], ◌∷◌, ◌++◌, append_assoc, append-nil, ◌≡◌, refl, sym, ap, ◌∙◌, subst, arith,
  length, length-append,
}
use gxo.Value.{Items, nil, cons}
use gxo.Errors.{Error, Result, ok, err}
use gxo.Join.Defs.{Record}
use gxo.Modules.FromList.{
  Answer, sends, stops, waits, LoopEnding, goes_on, returns, hangs, record_of, record_error,
  Producing, send_on, send_each, count_sent, send_error, produce_record, after_item, produce,
}
use gxo.Modules.FromList.Reference.{
  record_in, error_in, records, faults, Exactly, AtMost, Exactly-AtMost, AtMost-append,
}

module _ (answers : ℕ → Answer) where
  -- From `done` on each channel, a loop has reached an end after `sent` more.
  pub record Produces (done sent : List Record) (faulty : List Error) (p : Producing)
      (x : Producing × LoopEnding) : Type 0 where
    pub at_most : AtMost (done ++ sent) x.0.outs
    pub exact :
        x.1 ≡ goes_on
        → Exactly (done ++ sent) x.0.outs
          × (x.0.errs ≡ p.errs ++ faulty)
          × (x.0.records_generated ≡ p.records_generated + length sent)
    pub lasting : ((t : ℕ) → answers t ≡ sends) → x.1 ≡ goes_on

  record SendsEach (done : List Record) (r : Record) (x : List (List Record) × ℕ × LoopEnding)
      : Type 0 where
    at_most : AtMost (done ++ r ∷ []) x.0
    exact : x.2 ≡ goes_on → Exactly (done ++ r ∷ []) x.0
    lasting : ((t : ℕ) → answers t ≡ sends) → x.2 ≡ goes_on

  send_on_lem :
      (a : Answer) (t : ℕ) (done : List Record) (r : Record) (out : List Record)
      (outs : List (List Record)) (x : List (List Record) × ℕ × LoopEnding)
      → answers t ≡ a
      → out ≡ done
      → Exactly done outs
      → SendsEach done r x
      → SendsEach done r (send_on a t r out outs x)
  unfolding send_on
  send_on_lem sends t done r out outs x q e h each = record {
    at_most = (([], append-nil (out ++ r ∷ []) ∙ ap (λ o. o ++ r ∷ []) e), each.at_most);
    exact = λ on. (ap (λ o. o ++ r ∷ []) e, each.exact on);
    lasting = each.lasting;
  }
  send_on_lem (stops e') t done r out outs x q e h each = record {
    at_most = Exactly-AtMost done (r ∷ []) (out ∷ outs) (e, h);
    exact = λ on. absurd (cc);
    lasting = λ l. absurd (cc (l t));
  }
  send_on_lem waits t done r out outs x q e h each = record {
    at_most = Exactly-AtMost done (r ∷ []) (out ∷ outs) (e, h);
    exact = λ on. absurd (cc);
    lasting = λ l. absurd (cc (l t));
  }

  send_each_lem :
      (t : ℕ) (done : List Record) (r : Record) (outs : List (List Record))
      → Exactly done outs
      → SendsEach done r (send_each answers t r outs)
  unfolding send_each
  send_each_lem t done r [] h = record { at_most = tt; exact = λ on. tt; lasting = λ l. refl }
  send_each_lem t done r (out ∷ outs) h =
      send_on_lem (answers t) t done r out outs (send_each answers (suc t) r outs) refl h.0 h.1
        (send_each_lem (suc t) done r outs h.1)

  count_sent_lem :
      (done : List Record) (r : Record) (x : List (List Record) × ℕ × LoopEnding) (p : Producing)
      → SendsEach done r x
      → Produces done (r ∷ []) [] p (count_sent x p)
  unfolding count_sent
  count_sent_lem done r (outs, t, goes_on) p each = record {
    at_most = each.at_most;
    exact = λ on. (each.exact refl, sym (append-nil p.errs), refl);
    lasting = λ l. refl;
  }
  count_sent_lem done r (outs, t, returns e) p each = record {
    at_most = each.at_most;
    exact = λ on. absurd (cc);
    lasting = λ l. each.lasting l;
  }
  count_sent_lem done r (outs, t, hangs) p each = record {
    at_most = each.at_most;
    exact = λ on. absurd (cc);
    lasting = λ l. each.lasting l;
  }

  send_error_lem :
      (a : Answer) (done : List Record) (e : Error) (p : Producing)
      → answers p.asked ≡ a
      → Exactly done p.outs
      → Produces done [] (record_error e ∷ []) p (send_error a e p)
  unfolding send_error
  send_error_lem sends done e p q h = record {
    at_most = Exactly-AtMost done [] p.outs h;
    exact = λ on. (subst (λ d. Exactly d p.outs) (sym (append-nil done)) h, refl, omega arith);
    lasting = λ l. refl;
  }
  send_error_lem (stops e') done e p q h = record {
    at_most = Exactly-AtMost done [] p.outs h;
    exact = λ on. absurd (cc);
    lasting = λ l. absurd (cc (l p.asked));
  }
  send_error_lem waits done e p q h = record {
    at_most = Exactly-AtMost done [] p.outs h;
    exact = λ on. absurd (cc);
    lasting = λ l. absurd (cc (l p.asked));
  }

  produce_record_lem :
      (res : Result Record) (done : List Record) (p : Producing)
      → Exactly done p.outs
      → Produces done (record_in res) (error_in res) p (produce_record answers res p)
  unfolding produce_record
  produce_record_lem (ok r) done p h =
      count_sent_lem done r (send_each answers p.asked r p.outs) p
        (send_each_lem p.asked done r p.outs h)
  produce_record_lem (err e) done p h = send_error_lem (answers p.asked) done e p refl h

  -- One item and the items after it.
  after_item_lem :
      (done sent later : List Record) (faulty more : List Error) (p : Producing)
      (x : Producing × LoopEnding) (rest : Producing → Producing × LoopEnding)
      → Produces done sent faulty p x
      → (Exactly (done ++ sent) x.0.outs → Produces (done ++ sent) later more x.0 (rest x.0))
      → Produces done (sent ++ later) (faulty ++ more) p (after_item x rest)
  unfolding after_item
  after_item_lem done sent later faulty more p (p', goes_on) rest one all =
      let (here, errs, count) = one.exact refl in
      let next = all here in
      record {
        at_most =
            subst (λ l. AtMost l (rest p').0.outs) (append_assoc done sent later) next.at_most;
        exact = λ on.
            let (here', errs', count') = next.exact on in
            (
              subst (λ l. Exactly l (rest p').0.outs) (append_assoc done sent later) here',
              errs' ∙ ap (λ es. es ++ more) errs ∙ append_assoc p.errs faulty more,
              omega (arith, count, count', length-append sent later),
            );
        lasting = next.lasting;
      }
  after_item_lem done sent later faulty more p (p', returns e) rest one all = record {
    at_most =
        subst (λ l. AtMost l p'.outs) (append_assoc done sent later)
          (AtMost-append (done ++ sent) later p'.outs one.at_most);
    exact = λ on. absurd (cc);
    lasting = one.lasting;
  }
  after_item_lem done sent later faulty more p (p', hangs) rest one all = record {
    at_most =
        subst (λ l. AtMost l p'.outs) (append_assoc done sent later)
          (AtMost-append (done ++ sent) later p'.outs one.at_most);
    exact = λ on. absurd (cc);
    lasting = one.lasting;
  }

  pub produce_lem :
      (items : Items) (done : List Record) (p : Producing)
      → Exactly done p.outs
      → Produces done (records items) (faults items) p (produce answers items p)
  unfolding produce
  produce_lem nil done p h = record {
    at_most = Exactly-AtMost done [] p.outs h;
    exact = λ on. (
      subst (λ d. Exactly d p.outs) (sym (append-nil done)) h,
      sym (append-nil p.errs),
      omega arith,
    );
    lasting = λ l. refl;
  }
  produce_lem (cons item items) done p h =
      let res = record_of item in
      after_item_lem done (record_in res) (records items) (error_in res) (faults items) p
        (produce_record answers res p) (produce answers items) (produce_record_lem res done p h)
        (λ h'. produce_lem items (done ++ record_in res) (produce_record answers res p).0 h')
