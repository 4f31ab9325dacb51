-- ===== src/Driver/Authority.antt =====
-- The two checks of a movement side by side: the PolicyEngine that authorize of src/treasury/operations.ts
-- builds, and the capacity check of the Journal (src/purchase/journal.ts).
use sompi.Base.{ℕ, ◌≤◌, ◌≡◌, true, false, String, Option, ok, int_leb, ◌+ℤ◌, arith}
use sompi.Treasury.Types.{OperationKind, PolicySnapshot, Journal}
use sompi.Treasury.Capacity.{
  keeps_principal, assert_direct_treasury_capacity, policy_capacity_used, gross_movement,
}
use sompi.Policy.{validate_policy, authorize, distinct}
use sompi.Driver.Loop.{snapshot_admits}

-- A movement that spends principal and fits the Journal's limits with its fee is authorized by the engine over the same
-- snapshot and the same capacity in use, if the snapshot is a valid policy: a list without repetitions and a payment
-- limit within the hourly limit.
pub capacity-snapshot_admits :
    (j : Journal) (snapshot : PolicySnapshot) (kind : OperationKind) (destination : String)
    (amount fee now : ℕ) (exclude : Option String)
    → keeps_principal kind ≡ false
    → distinct snapshot.allowlist ≡ true
    → snapshot.max_per_payment ≤ snapshot.max_per_hour
    → assert_direct_treasury_capacity j snapshot kind destination amount fee now exclude ≡ ok tt
    → snapshot_admits snapshot destination amount (policy_capacity_used now exclude j) ≡ true
unfolding assert_direct_treasury_capacity snapshot_admits validate_policy authorize int_leb ◌+ℤ◌
    gross_movement
capacity-snapshot_admits j snapshot kind destination amount fee now exclude spends once limits h =
    ground (arith, spends, once, limits, h)
