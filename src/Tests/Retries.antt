-- ===== src/Tests/Retries.antt =====
-- Retries of an operation that succeeds in its second attempt, and of one that always fails.
use gxo.Prelude.{◌≤◌, true, none, some, ◌≡◌, ◌↔◌, refl, eqb, if◌then◌else◌}
use gxo.Prelude.Int.{pos}
use gxo.Errors.{plain}
use gxo.Engine.Completion.{redact_error}
use gxo.Retry.{Config, World, attempts_of, retry_do}
use gxo.Retry.Loop.{Succeeds, retry_do_iff}
use gxo.Retry.Calls.{retry_do_calls, retry_do_exhausts}
use gxo.Tests.Samples.{mentions}

abbrev three_times : Config
three_times = record { attempts = pos 3; on_error = true }

abbrev flaky : World
flaky = record {
  ended_before = λ j. none;
  op = λ j. if eqb j 2 then none else some (plain "refused");
  ended_in_delay = λ j. none;
}

abbrev broken : World
broken = record {
  ended_before = λ j. none;
  op = λ j. some (plain "refused");
  ended_in_delay = λ j. none;
}

second_attempt : retry_do mentions three_times flaky ≡ (none, 2)
unfolding retry_do
second_attempt = refl

retry_do_iff_example :
    ((retry_do mentions three_times flaky).0 ≡ none) ↔ Succeeds flaky true (attempts_of (pos 3)) 1
retry_do_iff_example = retry_do_iff mentions three_times flaky

retry_do_calls_example : (retry_do mentions three_times flaky).1 ≤ attempts_of (pos 3)
retry_do_calls_example = retry_do_calls mentions three_times flaky

retry_do_exhausts_example :
    retry_do mentions three_times broken
    ≡ (some (redact_error mentions (plain "refused")), attempts_of (pos 3))
retry_do_exhausts_example =
    retry_do_exhausts mentions three_times broken (λ j. plain "refused") (λ j lo hi. (refl, refl))
      (λ j lo hi. refl)
