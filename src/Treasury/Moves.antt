-- ===== src/Treasury/Moves.antt =====
-- What every write of an operation's row respects (src/purchase/journal.ts): the summary of the row
-- functions that the theorems on histories rest on.
use sompi.Base.{
  ℕ, ◌+◌, ◌≤◌, ◌≡◌, refl, ◌⊎◌, inl, inr, Bool, true, false, String, Option, none, some, ◌&&◌, leb,
  str_eq, if◌then◌else◌, Result, ok, arith,
}
use sompi.Treasury.Types.{
  OperationState, intent, prepared, submission_planned, submitted, observed, completed,
  failed_terminal, RequestedAmount, Operation, DriverLease, PreparedOperation, ObservationStatus,
  same_state,
}
use sompi.Treasury.Rows.{
  moved, amount_matches, claim_driver_row, renew_driver_row, release_driver_row, prepare_row,
  prepare_intent_row, retry_row, fail_row, fence_row, request_cancellation_row, mark_cancelled_row,
  cancel_row, plan_row, claim_capability_row, accepted_row, observe_row, complete_row,
}

-- The state diagram of a direct Treasury Operation: forward, or to failure from where no accepted
-- effect is known.
abbrev pub advances : OperationState → OperationState → Bool
advances intent intent = true
advances intent prepared = true
advances intent failed_terminal = true
advances prepared prepared = true
advances prepared submission_planned = true
advances submission_planned submission_planned = true
advances submission_planned submitted = true
advances submission_planned observed = true
advances submission_planned failed_terminal = true
advances submitted submitted = true
advances submitted observed = true
advances submitted failed_terminal = true
advances observed observed = true
advances observed completed = true
advances completed completed = true
advances failed_terminal failed_terminal = true
advances _ _ = false

-- How many times the operation may still hand its bytes to an adapter.
abbrev pub permits : Operation → ℕ
permits r = elim r.state [
  | intent ↦ 1
  | prepared ↦ 1
  | submission_planned ↦ if r.submission_in_flight then 0 else 1
  | _ ↦ 0
]

-- A transition row that records the hand-over to an adapter.
unfoldable pub launch : Option OperationState → OperationState → Option String → ℕ
launch (some submission_planned) submission_planned (some reason) =
    if str_eq reason "submission_in_flight" then 1 else 0
launch _ _ _ = 0

-- A cancellation mark hands nothing to an adapter.
launch_cancellation : (s : OperationState) → launch (some s) s (some "cancellation_requested") ≡ 0
unfolding launch
launch_cancellation submission_planned = refl
launch_cancellation _ = refl

-- What preparation fixed of an operation.
pub record SameMaterial (r r' : Operation) : Type 0 where
  pub same_transaction : r'.transaction_id ≡ r.transaction_id
  pub same_fee : r'.fee ≡ r.fee
  pub same_resolved : r'.resolved_amount ≡ r.resolved_amount
  pub same_digest : r'.prepared_digest ≡ r.prepared_digest
  pub same_ref : r'.prepared_ref ≡ r.prepared_ref

abbrev pub fee_within : Option ℕ → ℕ → Bool
fee_within none ceiling = true
fee_within (some fee) ceiling = leb fee ceiling

abbrev pub amount_kept : RequestedAmount → Option ℕ → Bool
amount_kept requested none = true
amount_kept requested (some amount) = amount_matches requested amount

-- The prepared fee is within the ceiling, and the resolved amount is the one that was asked for.
abbrev pub is_priced : Operation → Bool
is_priced r = fee_within r.fee r.fee_ceiling && amount_kept r.requested_amount r.resolved_amount

-- Signed material that its owner has cancelled before a submission was planned.
abbrev pub is_cancelled_material : Operation → Bool
is_cancelled_material r = same_state r.state prepared && r.cancellation_requested

pub record Move (r r' : Operation) (why : Option String) : Type 0 where
  pub same_key : r'.operation_key ≡ r.operation_key
  pub same_request : r'.request_digest ≡ r.request_digest
  pub same_kind : r'.kind ≡ r.kind
  pub same_destination : r'.destination ≡ r.destination
  pub same_requested : r'.requested_amount ≡ r.requested_amount
  pub same_ceiling : r'.fee_ceiling ≡ r.fee_ceiling
  pub same_limit : r'.retry_limit ≡ r.retry_limit
  pub same_policy : r'.policy_digest ≡ r.policy_digest
  pub forward : advances r.state r'.state ≡ true
  pub budget : launch (some r.state) r'.state why + permits r' ≤ permits r
  pub logged : why ≡ none → r'.state ≡ r.state
  pub material : same_state r.state intent ≡ false → SameMaterial r r'
  pub priced : is_priced r ≡ true → is_priced r' ≡ true
  pub cancelled : is_cancelled_material r ≡ true → is_cancelled_material r' ≡ true
  pub generation : r.driver_generation ≤ r'.driver_generation

pub claim_driver_row-Move :
    (owner : String) (ttl now : ℕ) (r : Operation) {r' : Operation} {why : Option String}
    → claim_driver_row owner ttl now r ≡ moved r' why
    → Move r r' why
unfolding claim_driver_row launch
claim_driver_row-Move owner ttl now r h = ground arith

pub renew_driver_row-Move :
    (lease : DriverLease) (now : ℕ) (r : Operation) {r' : Operation} {why : Option String}
    → renew_driver_row lease now r ≡ ok (moved r' why)
    → Move r r' why
unfolding renew_driver_row launch
renew_driver_row-Move lease now r h = ground arith

pub complete_row-Move :
    (driver : Option DriverLease) (seen_at now : ℕ) (r : Operation) {r' : Operation}
    {why : Option String}
    → complete_row driver seen_at now r ≡ ok (moved r' why)
    → Move r r' why
unfolding complete_row launch
complete_row-Move driver seen_at now r h = ground arith

pub claim_capability_row-Move :
    (driver : DriverLease) (seen_at now : ℕ) (r : Operation) {r' : Operation} {why : Option String}
    → claim_capability_row driver seen_at now r ≡ moved r' why
    → Move r r' why
unfolding claim_capability_row launch
claim_capability_row-Move driver seen_at now r h = ground arith

pub release_driver_row-Move :
    (lease : DriverLease) (now : ℕ) (r : Operation) {r' : Operation} {why : Option String}
    → release_driver_row lease now r ≡ moved r' why
    → Move r r' why
unfolding release_driver_row launch
release_driver_row-Move lease now r h = ground arith

prepare_intent_row-Move :
    (p : PreparedOperation) (now : ℕ) (policy fits unused : Result (Unit {0})) (r : Operation)
    {r' : Operation} {why : Option String}
    → r.state ≡ intent
    → prepare_intent_row p now policy fits unused r ≡ ok (moved r' why)
    → Move r r' why
unfolding prepare_intent_row launch
prepare_intent_row-Move p now policy fits unused r e h = ground arith

prepare_row_intent :
    (p : PreparedOperation) (driver : Option DriverLease) (seen_at now : ℕ)
    (policy fits unused : Result (Unit {0})) (r : Operation) {r' : Operation} {why : Option String}
    → prepare_row p driver seen_at now policy fits unused r ≡ ok (moved r' why)
    → (r.state ≡ intent) × (prepare_intent_row p now policy fits unused r ≡ ok (moved r' why))
unfolding prepare_row
prepare_row_intent p driver seen_at now policy fits unused r h = ground arith

pub prepare_row-Move :
    (p : PreparedOperation) (driver : Option DriverLease) (seen_at now : ℕ)
    (policy fits unused : Result (Unit {0})) (r : Operation) {r' : Operation} {why : Option String}
    → prepare_row p driver seen_at now policy fits unused r ≡ ok (moved r' why)
    → Move r r' why
prepare_row-Move p driver seen_at now policy fits unused r h =
    let (e, k) = prepare_row_intent p driver seen_at now policy fits unused r h in
    prepare_intent_row-Move p now policy fits unused r e k

pub retry_row-Move :
    (reason : String) (driver : Option DriverLease) (seen_at now : ℕ) (r : Operation)
    {r' : Operation} {why : Option String}
    → retry_row reason driver seen_at now r ≡ ok (moved r' why)
    → Move r r' why
unfolding retry_row launch
retry_row-Move reason driver seen_at now r h = ground arith

pub fail_row-Move :
    (reason : String) (driver : Option DriverLease) (seen_at now : ℕ) (r : Operation)
    {r' : Operation} {why : Option String}
    → fail_row reason driver seen_at now r ≡ ok (moved r' why)
    → Move r r' why
unfolding fail_row launch
fail_row-Move reason driver seen_at now r h = ground arith

pub fence_row-Move :
    (reason : String) (driver : Option DriverLease) (seen_at now : ℕ) (r : Operation)
    {r' : Operation} {why : Option String}
    → fence_row reason driver seen_at now r ≡ ok (moved r' why)
    → Move r r' why
unfolding fence_row launch
fence_row-Move reason driver seen_at now r h = ground arith

pub request_cancellation_row-Move :
    (now : ℕ) (r : Operation) {r' : Operation} {why : Option String}
    → request_cancellation_row now r ≡ moved r' why
    → Move r r' why
unfolding request_cancellation_row
request_cancellation_row-Move now r h = ground (arith, launch_cancellation r.state)

mark_cancelled_row-Move :
    (now : ℕ) (r : Operation) {r' : Operation} {why : Option String}
    → mark_cancelled_row now r ≡ moved r' why
    → Move r r' why
unfolding mark_cancelled_row
mark_cancelled_row-Move now r h = ground (arith, launch_cancellation r.state)

cancel_row_cases :
    (earlier : Operation) (seen_at now : ℕ) (r : Operation) {r' : Operation} {why : Option String}
    → cancel_row earlier seen_at now r ≡ ok (moved r' why)
    → (request_cancellation_row now r ≡ moved r' why)
      ⊎ (fail_row "cancelled_before_effect" none seen_at now r ≡ ok (moved r' why))
      ⊎ (mark_cancelled_row now r ≡ moved r' why)
unfolding cancel_row
cancel_row_cases earlier seen_at now r h = ground arith

pub cancel_row-Move :
    (earlier : Operation) (seen_at now : ℕ) (r : Operation) {r' : Operation} {why : Option String}
    → cancel_row earlier seen_at now r ≡ ok (moved r' why)
    → Move r r' why
cancel_row-Move earlier seen_at now r h = elim (cancel_row_cases earlier seen_at now r h) [
  | inl k ↦ request_cancellation_row-Move now r k
  | inr (inl k) ↦ fail_row-Move "cancelled_before_effect" none seen_at now r k
  | inr (inr k) ↦ mark_cancelled_row-Move now r k
]

pub plan_row-Move :
    (driver : Option DriverLease) (seen_at now : ℕ) (policy fits : Result (Unit {0}))
    (r : Operation) {r' : Operation} {why : Option String}
    → plan_row driver seen_at now policy fits r ≡ ok (moved r' why)
    → Move r r' why
unfolding plan_row launch
plan_row-Move driver seen_at now policy fits r h = ground arith

pub accepted_row-Move :
    (transaction_id : String) (driver : Option DriverLease) (seen_at now : ℕ) (r : Operation)
    {r' : Operation} {why : Option String}
    → accepted_row transaction_id driver seen_at now r ≡ ok (moved r' why)
    → Move r r' why
unfolding accepted_row launch
accepted_row-Move transaction_id driver seen_at now r h = ground arith

pub observe_row-Move :
    (status : ObservationStatus) (driver : Option DriverLease) (seen_at now : ℕ) (r : Operation)
    {r' : Operation} {why : Option String}
    → observe_row status driver seen_at now r ≡ ok (moved r' why)
    → Move r r' why
unfolding observe_row launch
observe_row-Move status driver seen_at now r h = ground arith
