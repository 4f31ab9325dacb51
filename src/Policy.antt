-- ===== src/Policy.antt =====
-- src/policy.ts: the spending policy that is enforced below the Agent. A violation is the error's
-- reason, its texts left out.
use sompi.Base.{
  Bool, true, not, ◌&&◌, ◌||◌, String, Option, none, some, List, [], ◌∷◌, ◌==◌, if◌then◌else◌,
  length, includes, ℤ, pos, ◌+ℤ◌, int_leb,
}

pub record Policy : Type 0 where
  pub max_sompi_per_tx : ℤ
  pub max_sompi_per_hour : ℤ
  pub allowlist : List String

pub data PolicyViolation : Type 0 where
  amount_not_positive over_payment_limit destination_not_allowed capacity_invalid
        over_hourly_limit :
      PolicyViolation

-- `new Set(list).size === list.length`.
unfoldable pub distinct : List String → Bool
distinct [] = true
distinct (s ∷ ss) = not (includes s ss) && distinct ss

-- validatePolicy, on a policy of the declared types: `none` is the violation "spending policy revision is
-- invalid".
unfoldable pub validate_policy : Policy → Option Policy
unfolding distinct int_leb
validate_policy p =
    if not (distinct p.allowlist)
      || int_leb p.max_sompi_per_tx (pos 0)
      || int_leb p.max_sompi_per_hour (pos 0)
      || not (int_leb p.max_sompi_per_tx p.max_sompi_per_hour)
    then none
    else some p

-- PolicyEngine.authorize: `none` where it does not throw.
unfoldable pub authorize :
    Policy → String → (amount committed_capacity : ℤ) → Option PolicyViolation
unfolding int_leb ◌+ℤ◌
authorize p destination amount committed_capacity =
    if int_leb amount (pos 0)
    then some amount_not_positive
    else if not (int_leb amount p.max_sompi_per_tx)
    then some over_payment_limit
    else if not (length p.allowlist == 0) && not (includes destination p.allowlist)
    then some destination_not_allowed
    else if not (int_leb (pos 0) committed_capacity)
    then some capacity_invalid
    else if not (int_leb (committed_capacity +ℤ amount) p.max_sompi_per_hour)
    then some over_hourly_limit
    else none

-- PolicyEngine.activate, on the policy that is configured: a policy that is invalid throws and changes nothing.
unfoldable pub activate : (configured next : Policy) → Policy
unfolding validate_policy
activate configured next = elim (validate_policy next) [ none ↦ configured | some p ↦ p ]
