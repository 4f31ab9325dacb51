-- ===== src/Driver/Runs.antt =====
-- One driver of src/treasury/operations.ts from its start to its end, in surroundings that answer its
-- requests and change the Journal in the meantime.
use sompi.Base.{ℕ, zero, suc, Bool, String, Option, none, some, List}
use sompi.Treasury.Types.{Journal}
use sompi.Treasury.Commands.{Command, run}
use sompi.Driver.Process.{
  Preparation, Probe, Drive, returned, threw, ask_prepare, ask_submit, ask_observe, ask,
}
use sompi.Driver.Schedule.{Answer, clock, preparation, submission, observation, reply, advance}

-- What meets the driver at its request of each number.
pub record Surroundings : Type 0 where
  pub seen_at : ℕ → ℕ
  pub now : ℕ → ℕ
  pub meanwhile : ℕ → List Command
  pub prepares : ℕ → Preparation
  pub submits : ℕ → Option String
  pub observes : ℕ → Option Probe
  pub replies : ℕ → Bool

unfoldable pub answer_to : Surroundings → ℕ → Drive → Answer
answer_to s i (ask_prepare r next) = preparation (s.prepares i)
answer_to s i (ask_submit key r next) = submission (s.submits i)
answer_to s i (ask_observe r next) = observation (s.observes i)
answer_to s i (ask q next) = reply (s.replies i)
answer_to s i _ = clock (s.seen_at i) (s.now i)

-- At most `fuel` requests, from the one of number `i`: the end of the driver and the tables, or `none` if
-- it is not at its end.
unfoldable pub finish : Surroundings → (fuel i : ℕ) → Drive → Journal → Option (Drive × Journal)
unfolding answer_to advance run
finish s fuel i (returned r) j = some (returned r, j)
finish s fuel i threw j = some (threw, j)
finish s zero i d j = none
finish s (suc fuel) i d j =
    let after = advance (answer_to s i d) d (run (s.meanwhile i) j) in
    finish s fuel (suc i) after.driver after.journal
