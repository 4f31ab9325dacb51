-- ===== src/Treasury/Fencing.antt =====
-- What the driver lease of a direct Treasury Operation fences off (src/purchase/journal.ts).
use mathlib.Core.Path.{subst}
use sompi.Base.{
  ℕ, ◌+◌, ◌<◌, ◌≡◌, refl, sym, ap, eq_iff, ◌∙◌, Bool, true, false, String, Option, none, some, List,
  [], ◌∷◌, ◌++◌, str_eq, Result, ok, err, ◌>>◌, require, arith, Error, invariant, is_code,
  is_operation_key, is_transaction_id,
}
use sompi.Treasury.Types.{Operation, DriverLease, PreparedOperation, ObservationStatus, Journal}
use sompi.Treasury.Rows.{
  Outcome, moved, driver_owns, driver_admitted, claim_driver_row, renew_driver_row,
  release_driver_row, prepare_row, retry_row, fail_row, fence_row, plan_row, claim_capability_row,
  accepted_row, observe_row, complete_row,
}
use sompi.Treasury.Capacity.{expire_reservations}
use sompi.Treasury.Handlers
use sompi.Treasury.Safety.{run-Follows}
use sompi.Treasury.Commands.{
  Command, renew_driver, release_driver, prepare, retry, fail, fence, plan, claim_capability,
  accept, observe, complete, tables, call, committed, run,
}
use sompi.Treasury.Tables.{find_operation, on_operation, write_outcome}
use sompi.Treasury.Sound.{find-replace, operations-write}

-- A lease of an earlier generation than the row's.
abbrev pub IsStale : DriverLease → Operation → Type 0
IsStale lease r = lease.generation < r.driver_generation

stale_driver :
    (lease : DriverLease) (r : Operation) (at : ℕ)
    → IsStale lease r
    → driver_owns r lease at ≡ false
unfolding driver_owns
stale_driver lease r at s = ground arith

-- No write of a row comes from a row function: it throws, or it answers without a write.
abbrev pub writes : Result Outcome → Bool
writes (ok (moved r why)) = true
writes _ = false

module _ (lease : DriverLease) (r : Operation) (stale : IsStale lease r) (seen_at now : ℕ) where
  refused : driver_admitted (some lease) r seen_at ≡ false
  unfolding driver_admitted
  refused = stale_driver lease r seen_at stale

  stale_prepare :
      (p : PreparedOperation) (policy fits unused : Result (Unit {0}))
      → writes (prepare_row p (some lease) seen_at now policy fits unused r) ≡ false
  unfolding prepare_row
  stale_prepare p policy fits unused = ground (arith, refused)

  stale_retry : (reason : String) → writes (retry_row reason (some lease) seen_at now r) ≡ false
  unfolding retry_row
  stale_retry reason = ground (arith, refused)

  stale_fail : (reason : String) → writes (fail_row reason (some lease) seen_at now r) ≡ false
  unfolding fail_row
  stale_fail reason = ground (arith, refused)

  stale_fence : (reason : String) → writes (fence_row reason (some lease) seen_at now r) ≡ false
  unfolding fence_row
  stale_fence reason = ground (arith, refused)

  stale_plan :
      (policy fits : Result (Unit {0}))
      → writes (plan_row (some lease) seen_at now policy fits r) ≡ false
  unfolding plan_row
  stale_plan policy fits = ground (arith, refused)

  stale_capability : writes (ok (claim_capability_row lease seen_at now r)) ≡ false
  unfolding claim_capability_row
  stale_capability = ground (arith, stale_driver lease r seen_at stale)

  stale_accept : (id : String) → writes (accepted_row id (some lease) seen_at now r) ≡ false
  unfolding accepted_row
  stale_accept id = ground (arith, refused)

  stale_complete : writes (complete_row (some lease) seen_at now r) ≡ false
  unfolding complete_row
  stale_complete = ground (arith, refused)

  stale_observe :
      (status : ObservationStatus) → observe_row status (some lease) seen_at now r ≡ err invariant
  unfolding observe_row
  stale_observe status = ground (arith, refused)

  stale_renew : writes (renew_driver_row lease now r) ≡ false
  unfolding renew_driver_row
  stale_renew = ground (arith, stale_driver lease r now stale)

  stale_release : writes (ok (release_driver_row lease now r)) ≡ false
  unfolding release_driver_row
  stale_release = ground arith

silent :
    (key : String) (now : ℕ) (j base : Journal) (f : Operation → Result Outcome) (r : Operation)
    → find_operation key j.operations ≡ some r
    → writes (f r) ≡ false
    → committed j (tables (on_operation key now j base f)) ≡ j
unfolding on_operation
silent key now j base f r found w = ground arith

behind_check :
    (b : Bool) (e : Error) (m : Result (Journal × Outcome)) (j : Journal)
    → committed j (tables m) ≡ j
    → committed j (tables (require b e >> m)) ≡ j
behind_check true e m j h = h
behind_check false e m j h = refl

behind_validation :
    (p : PreparedOperation) (m : Result (Journal × Outcome)) (j : Journal)
    → committed j (tables m) ≡ j
    → committed j (tables (Handlers.validate_prepared p >> m)) ≡ j
behind_validation p m j h = step (Handlers.validate_prepared p)
  where
    step : (v : Result (Unit {0})) → committed j (tables (v >> m)) ≡ j
    step (ok tt) = h
    step (err e) = refl

silent_observation :
    (key : String) (status : ObservationStatus) (digest json : String) (byte_length : ℕ)
    (lease : DriverLease) (seen_at now : ℕ) (j : Journal) (r : Operation)
    → find_operation key j.operations ≡ some r
    → IsStale lease r
    → committed j (
        tables (
          Handlers.record_treasury_operation_observation key status digest json byte_length
            (some lease)
            seen_at
            now
            j))
      ≡ j
unfolding Handlers.record_treasury_operation_observation Handlers.observe_operation
silent_observation key status digest json byte_length lease seen_at now j r found stale =
    ground (arith, stale_observe lease r stale seen_at now status)

-- The key and the lease of a call that a driver makes under its lease.
abbrev pub driven_by : Command → Option (String × DriverLease)
driven_by (renew_driver lease key now) = some (key, lease)
driven_by (release_driver lease key now) = some (key, lease)
driven_by (prepare key p (some lease) seen_at now) = some (key, lease)
driven_by (retry key reason (some lease) seen_at now) = some (key, lease)
driven_by (fail key reason (some lease) seen_at now) = some (key, lease)
driven_by (fence key reason (some lease) seen_at now) = some (key, lease)
driven_by (plan key (some lease) seen_at now) = some (key, lease)
driven_by (claim_capability key lease seen_at now) = some (key, lease)
driven_by (accept key id (some lease) seen_at now) = some (key, lease)
driven_by (observe key status digest json n (some lease) seen_at now) = some (key, lease)
driven_by (complete key (some lease) seen_at now) = some (key, lease)
driven_by _ = none

abbrev pub StaleFor : Journal → Option (String × DriverLease) → Type 0
StaleFor j none = ⊥
StaleFor j (some (key, lease)) =
    (r : Operation) × (find_operation key j.operations ≡ some r) × IsStale lease r

-- A call under a lease of an earlier generation than the row's changes no table.
pub stale_call : (c : Command) (j : Journal) → StaleFor j (driven_by c) → committed j (call c j) ≡ j
unfolding call Handlers.renew_treasury_operation_driver Handlers.release_treasury_operation_driver
    Handlers.record_prepared_treasury_operation Handlers.record_treasury_preparation_retry
    Handlers.fail_treasury_operation_preparation Handlers.fence_treasury_operation_preparation
    Handlers.plan_treasury_operation_submission Handlers.claim_treasury_operation_effect_capability
    Handlers.record_treasury_operation_submission_accepted Handlers.complete_treasury_operation
stale_call (renew_driver lease key now) j (r, found, stale) =
    silent key now j j _ r found (stale_renew lease r stale 0 now)
stale_call (release_driver lease key now) j (r, found, stale) =
    silent key now j j _ r found (stale_release lease r stale 0 now)
stale_call (prepare key p (some lease) seen_at now) j (r, found, stale) =
    behind_check (is_operation_key key) invariant _ j (
      behind_validation p _ j (
        silent key now j (expire_reservations now j) _ r found
          (stale_prepare lease r stale seen_at now p _ _ _)))
stale_call (retry key reason (some lease) seen_at now) j (r, found, stale) =
    behind_check (is_code reason) invariant _ j
      (silent key now j j _ r found (stale_retry lease r stale seen_at now reason))
stale_call (fail key reason (some lease) seen_at now) j (r, found, stale) =
    behind_check (Handlers.terminal_reason reason) invariant _ j
      (silent key now j j _ r found (stale_fail lease r stale seen_at now reason))
stale_call (fence key reason (some lease) seen_at now) j (r, found, stale) =
    behind_check (is_code reason) invariant _ j
      (silent key now j j _ r found (stale_fence lease r stale seen_at now reason))
stale_call (plan key (some lease) seen_at now) j (r, found, stale) =
    silent key now j (expire_reservations now j) _ r found
      (stale_plan lease r stale seen_at now _ _)
stale_call (claim_capability key lease seen_at now) j (r, found, stale) =
    silent key now j j _ r found (stale_capability lease r stale seen_at now)
stale_call (accept key id (some lease) seen_at now) j (r, found, stale) =
    behind_check (is_transaction_id id) invariant _ j
      (silent key now j j _ r found (stale_accept lease r stale seen_at now id))
stale_call (observe key status digest json n (some lease) seen_at now) j (r, found, stale) =
    silent_observation key status digest json n lease seen_at now j r found stale
stale_call (complete key (some lease) seen_at now) j (r, found, stale) =
    silent key now j j _ r found (stale_complete lease r stale seen_at now)
stale_call _ j s = elim s [ ]

run-append : (cs ds : List Command) (j : Journal) → run (cs ++ ds) j ≡ run ds (run cs j)
unfolding run
run-append [] ds j = refl
run-append (c ∷ cs) ds j = run-append cs ds (committed j (call c j))

run-single : (c : Command) (j : Journal) → run (c ∷ []) j ≡ committed j (call c j)
unfolding run
run-single c j = refl

-- A driver whose generation has been passed never writes again: after any further calls by anybody, each
-- call that it makes under its old lease on that operation leaves every table as it is.
pub run-stale :
    (cs : List Command) (c : Command) (j : Journal) (key : String) (lease : DriverLease)
    (r : Operation)
    → find_operation key j.operations ≡ some r
    → lease.generation < r.driver_generation
    → driven_by c ≡ some (key, lease)
    → run (cs ++ c ∷ []) j ≡ run cs j
run-stale cs c j key lease r found stale driven =
    let (r', found', f) = run-Follows cs j key r found in
    let passed : StaleFor (run cs j) (some (key, lease)) =
      (r', found', omega (arith, f.generation)) in
    run-append cs (c ∷ []) j
    ∙ run-single c (run cs j)
    ∙ stale_call c (run cs j) (subst (StaleFor (run cs j)) (sym driven) passed)

-- The row function of claimTreasuryOperationDriver for another owner than the row's.
claim_driver_row-other :
    (owner : String) (ttl now : ℕ) (r r' : Operation) (why : Option String) (lease : DriverLease)
    → claim_driver_row owner ttl now r ≡ moved r' why
    → r.driver_owner ≡ some lease.owner
    → str_eq lease.owner owner ≡ false
    → (driver_owns r lease now ≡ false)
      × (r'.operation_key ≡ r.operation_key)
      × (r'.driver_generation ≡ r.driver_generation + 1)
unfolding claim_driver_row driver_owns
claim_driver_row-other owner ttl now r r' why lease h held other = ground (arith, held, other)

claim_driver-granted :
    (owner : String) (ttl now : ℕ) (key : String) (j j1 : Journal) (r r' : Operation)
    (why : Option String)
    → find_operation key j.operations ≡ some r
    → Handlers.claim_treasury_operation_driver key owner ttl now j ≡ ok (j1, moved r' why)
    → (claim_driver_row owner ttl now r ≡ moved r' why)
      × (j1 ≡ write_outcome key now r (moved r' why) j)
unfolding Handlers.claim_treasury_operation_driver on_operation
claim_driver-granted owner ttl now key j j1 r r' why found h = ground (arith, found)

-- When another owner's claim of an operation is granted, the token that the row held was no longer current, and
-- from there on it is worth nothing: after any further calls by anybody, each call that is made under it on that
-- operation leaves every table as it is.
pub claim_driver-fences :
    (cs : List Command) (c : Command) (j j1 : Journal) (key owner : String) (ttl now : ℕ)
    (r r' : Operation) (why : Option String) (lease : DriverLease)
    → find_operation key j.operations ≡ some r
    → r.driver_owner ≡ some lease.owner
    → r.driver_generation ≡ lease.generation
    → str_eq lease.owner owner ≡ false
    → Handlers.claim_treasury_operation_driver key owner ttl now j ≡ ok (j1, moved r' why)
    → driven_by c ≡ some (key, lease)
    → (driver_owns r lease now ≡ false) × (run (cs ++ c ∷ []) j1 ≡ run cs j1)
claim_driver-fences cs c j j1 key owner ttl now r r' why lease found held current other h driven =
    let (row, e) = claim_driver-granted owner ttl now key j j1 r r' why found h in
    let (lapsed, same_key, next) =
      claim_driver_row-other owner ttl now r r' why lease row held other in
    let there : find_operation key j1.operations ≡ some r' =
      ap (λ x. find_operation key x.operations) e
      ∙ ap (find_operation key) (operations-write key now r r' why j)
      ∙ find-replace key key r r' j.operations found same_key
      ∙ ground (arith, eq_iff key key) in
    (lapsed, run-stale cs c j1 key lease r' there (omega (arith, next, current)) driven)
