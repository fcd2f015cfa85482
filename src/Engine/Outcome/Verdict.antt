-- ===== src/Engine/Outcome/Verdict.antt =====
-- When a run without a fatal error has no final error.
use gxo.Prelude.{String, Bool, true, false, ◌≡◌, ◌↔◌, refl, [], ◌∷◌, Option, none, some, arith}
use gxo.Prelude.Dict.{Dict}
use gxo.Errors.{Error}
use gxo.Dag.Defs.{TaskStatus, Dag}
use gxo.Engine.Defs.{is_pending, is_failed}
use gxo.Engine.Outcome.{
  Flags, is_expected_pending, look_at, look_at_all, no_flags, outcome_of, determine_final_outcome,
}

-- No task of the list failed, and each pending one waits for a state dependency.
abbrev pub IsSettled : Dag → Dict TaskStatus → Type 0
IsSettled dag [] = Unit
IsSettled dag ((id, status) ∷ statuses) =
    (is_failed status ≡ false)
    × (is_pending status ≡ true → is_expected_pending dag id ≡ true)
    × IsSettled dag statuses

module _ (dag : Dag) where
  clear_flags :
      (statuses : Dict TaskStatus) (flags : Flags)
      → outcome_of (look_at_all dag statuses flags) ≡ none
      → (flags.has_failed_tasks ≡ false)
        × (flags.has_unexpected_pending ≡ false)
        × IsSettled dag statuses
  unfolding outcome_of look_at_all look_at
  clear_flags [] flags h = ground arith
  clear_flags ((id, status) ∷ statuses) flags h =
      let (f, p, rest) = clear_flags statuses (look_at dag id status flags) h in
      (ground arith, ground arith, (ground arith, λ q. ground arith, rest))

  settled_outcome :
      (statuses : Dict TaskStatus) (flags : Flags)
      → flags.has_failed_tasks ≡ false
      → flags.has_unexpected_pending ≡ false
      → IsSettled dag statuses
      → outcome_of (look_at_all dag statuses flags) ≡ none
  unfolding outcome_of look_at_all look_at
  settled_outcome [] flags f p s = ground arith
  settled_outcome ((id, status) ∷ statuses) flags f p (a, b, rest) =
      settled_outcome statuses (look_at dag id status flags) (ground arith) (ground arith) rest

-- A run without a fatal error has no final error exactly when no task has failed and each pending
-- task of it has a state dependency left; a run with a fatal error always has a final error.
pub final_outcome_iff :
    (mentions : Error → Bool) (text : Error → String) (dag : Dag) (statuses : Dict TaskStatus)
    (first : Option Error)
    → (determine_final_outcome mentions text dag statuses first ≡ none)
      ↔ ((first ≡ none) × IsSettled dag statuses)
unfolding determine_final_outcome
final_outcome_iff mentions text dag statuses none = (
  λ h. let (f, p, s) = clear_flags dag statuses no_flags h in (refl, s),
  λ (e, s). settled_outcome dag statuses no_flags refl refl s,
)
final_outcome_iff mentions text dag statuses (some err) =
    (λ h. absurd (ground arith), λ (e, s). absurd (cc))
