-- ===== src/Examples/Driven.antt =====
-- The theorems on the drivers of src/treasury/operations.ts at concrete inputs.
use sompi.Base.Text
use sompi.Base.{◌+◌, ◌≤◌, ◌≡◌, refl, true, false, some, List, [], ◌∷◌, is_some, is_operation_key}
use sompi.Treasury.Types.{Operation, DriverLease, Journal, submitted, completed, seen}
use sompi.Treasury.Rows.{driver_owns}
use sompi.Treasury.Tables.{find_operation}
use sompi.Treasury.Sound.{launches}
use sompi.Treasury.Commands.{Command}
use sompi.Driver.Process.{ready, Probe, returned}
use sompi.Driver.Loop.{drive, drive_owned}
use sompi.Driver.Schedule.{
  clock, preparation, submission, reply, Event, starts, moves, others, play, handed_count, opened,
}
use sompi.Driver.Runs.{Surroundings, finish}
use sompi.Driver.Steps.{IsKind}
use sompi.Driver.Once.{play-launched, play-submits_once}
use sompi.Driver.Ends.{finish-drive}
use sompi.Driver.Recovers.{finish-drive_owned}
use sompi.Examples.Data.{
  start, payment, material, transaction_id, other_digest, prepared_row, holding,
}

abbrev probe : Probe
probe = record { status = seen; digest = other_digest; json = "{}"; byte_length = 2 }

-- Two drivers of one payment, the second of which finds the first at work.
abbrev schedule : List Event
schedule =
    others (Command.claim_intent payment 1000)
    ∷ starts "payment-1" "driver-b"
    ∷ starts "payment-1" "driver-a"
    ∷ moves 0 (clock 1001 1002)
    ∷ moves 0 (reply false)
    ∷ moves 0 (clock 1003 1004)
    ∷ moves 0 (reply true)
    ∷ moves 1 (clock 1005 1006)
    ∷ moves 0 (preparation (ready material))
    ∷ moves 0 (clock 1007 1008)
    ∷ moves 0 (clock 1009 1010)
    ∷ moves 0 (clock 1011 1012)
    ∷ moves 0 (clock 1013 1014)
    ∷ moves 0 (clock 1015 1016)
    ∷ moves 0 (clock 1017 1018)
    ∷ moves 0 (clock 1019 1020)
    ∷ moves 0 (clock 1021 1022)
    ∷ moves 0 (reply true)
    ∷ moves 0 (submission (some transaction_id))
    ∷ moves 1 (reply false)
    ∷ []

play-launched_example :
    handed_count "payment-1" (play schedule (opened start)).handed + launches "payment-1" start
    ≤ launches "payment-1" (play schedule (opened start)).journal
play-launched_example = play-launched schedule start "payment-1"

play-submits_once_example : handed_count "payment-1" (play schedule (opened start)).handed ≤ 1
play-submits_once_example = play-submits_once schedule start "payment-1" (refl, refl)

-- An adapter that does everything it is asked for.
abbrev cooperation : Surroundings
cooperation = record {
  seen_at = λ i. 2000;
  now = λ i. 2001;
  meanwhile = λ i. [];
  prepares = λ i. ready material;
  submits = λ i. some transaction_id;
  observes = λ i. some probe;
  replies = λ i. true;
}

finish-drive_example :
    is_some (finish cooperation 1827 0 (drive "payment-1" "driver-a") (holding prepared_row)) ≡ true
finish-drive_example = finish-drive cooperation "payment-1" "driver-a" (holding prepared_row)

abbrev submitted_row : Operation
submitted_row = record prepared_row { state = submitted; effect_capability_generation = some 1 }

abbrev lease : DriverLease
lease = record { owner = "driver-a"; generation = 1; expires_at_ms = 31000 }

is_kind : IsKind cooperation probe lease submitted_row
unfolding driver_owns
is_kind = record {
  alone = λ i. refl;
  yes = λ i. refl;
  sees = λ i. refl;
  is_seen = refl;
  small = refl;
  owned = λ i. refl;
}

named : is_operation_key "payment-1" ≡ true
unfolding is_operation_key Text.codes Text.is_key_char Text.is_alnum
named = refl

held : find_operation "payment-1" (holding submitted_row).operations ≡ some submitted_row
unfolding find_operation
held = refl

finish-drive_owned_example :
    (r' : Operation) × (j' : Journal) × (finish cooperation 23 0
        (drive_owned "payment-1" lease)
        (holding submitted_row)
      ≡ some (returned r', j'))
    × (find_operation "payment-1" j'.operations ≡ some r')
    × (r'.state ≡ completed)
finish-drive_owned_example =
    finish-drive_owned cooperation probe lease "payment-1" (holding submitted_row) submitted_row
      named held refl refl is_kind
