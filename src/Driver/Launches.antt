-- ===== src/Driver/Launches.antt =====
-- The launch behind a granted capability: claimTreasuryOperationEffectCapability of src/purchase/journal.ts
-- grants it with the log row of the launch.
use sompi.Base.{
  ℕ, ◌+◌, ◌≤◌, ◌≡◌, refl, true, String, Option, some, str_eq, if◌then◌else◌, Result, ok, err, arith,
}
use sompi.Treasury.Types.{submission_planned, Operation, DriverLease, Journal}
use sompi.Treasury.Rows.{Outcome, kept, moved, claim_capability_row}
use sompi.Treasury.Tables.{write_outcome}
use sompi.Treasury.Handlers.{claim_treasury_operation_effect_capability}
use sompi.Treasury.Moves.{launch}
use sompi.Treasury.Sound.{launches, launches-write}
use sompi.Treasury.Calls.{on_operation-cases}
use sompi.Treasury.Commands.{claim_capability, tables, call, committed}
use sompi.Driver.Process.{answered, has_moved}

granted_parts :
    (lease : DriverLease) (seen_at now : ℕ) (r r' : Operation) (why : Option String)
    → claim_capability_row lease seen_at now r ≡ moved r' why
    → (r.state ≡ submission_planned)
      × (r'.state ≡ submission_planned)
      × (why ≡ some "submission_in_flight")
unfolding claim_capability_row
granted_parts lease seen_at now r r' why h = ground arith

granted_row :
    (lease : DriverLease) (seen_at now : ℕ) (r r' : Operation) (why : Option String)
    → claim_capability_row lease seen_at now r ≡ moved r' why
    → launch (some r.state) r'.state why ≡ 1
unfolding launch
granted_row lease seen_at now r r' why h =
    let (planned, still, reason) = granted_parts lease seen_at now r r' why h in
    rw (planned, still, reason) refl

has_moved-cases :
    (m : Result (Journal × Outcome))
    → has_moved m ≡ true
    → (j : Journal) × (r : Operation) × (why : Option String) × (m ≡ ok (j, moved r why))
has_moved-cases (ok (j, moved r why)) h = (j, r, why, refl)
has_moved-cases (ok (j, kept)) h = cc
has_moved-cases (err e) h = cc

ok-injective : {o o' : Outcome} → ok o ≡ ok o' → o ≡ o'
ok-injective h = cc

write_grants :
    (key k : String) (now : ℕ) (r r' : Operation) (why : Option String) (j : Journal)
    → launch (some r.state) r'.state why ≡ 1
    → launches k j + (if str_eq key k then 1 else 0)
      ≤ launches k (write_outcome key now r (moved r' why) j)
write_grants key k now r r' why j one = rw (launches-write key k now r r' why j, one) (omega arith)

committed_as :
    (m : Result (Journal × Outcome)) (j j' : Journal) (o : Outcome)
    → m ≡ ok (j', o)
    → committed j (tables m) ≡ j'
committed_as m j j' o h = rw h refl

-- A capability that is granted is a launch of its operation in the log.
pub launches-granted :
    (key : String) (lease : DriverLease) (seen_at now : ℕ) (j : Journal)
    → answered (claim_capability key lease seen_at now) j ≡ true
    → (k : String)
    → launches k j + (if str_eq key k then 1 else 0)
      ≤ launches k (committed j (call (claim_capability key lease seen_at now) j))
unfolding answered call claim_treasury_operation_effect_capability
launches-granted key lease seen_at now j h k =
    let (j', r', why, done) =
      has_moved-cases (claim_treasury_operation_effect_capability key lease seen_at now j) h in
    let (r, found, row, written) =
      on_operation-cases key now j j (λ r. ok (claim_capability_row lease seen_at now r)) done in
    rw (committed_as _ j j' (moved r' why) done, written)
      (write_grants key k now r r' why j
        (granted_row lease seen_at now r r' why (ok-injective row)))
