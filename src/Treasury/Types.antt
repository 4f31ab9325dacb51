-- ===== src/Treasury/Types.antt =====
-- The rows of the Journal that direct Treasury Operations read and write
-- (src/treasury/operation-journal.ts; treasury_operations and its neighbours in
-- src/purchase/journal-schema.ts). A canonical decimal text is the number that it denotes, a digest or an
-- identity is a text, NULL is `none`.
use sompi.Base.{ℕ, ◌==◌, Bool, true, false, String, Option, List, ◌≡◌, arith}

pub data OperationKind : Type 0 where
  wallet_send vault_send vault_deposit batch_refund : OperationKind

pub data OperationState : Type 0 where
  intent prepared submission_planned submitted observed completed failed_terminal : OperationState

abbrev pub kind_rank : OperationKind → ℕ
kind_rank wallet_send = 0
kind_rank vault_send = 1
kind_rank vault_deposit = 2
kind_rank batch_refund = 3

abbrev pub same_kind : OperationKind → OperationKind → Bool
same_kind a b = kind_rank a == kind_rank b

abbrev pub state_rank : OperationState → ℕ
state_rank intent = 0
state_rank prepared = 1
state_rank submission_planned = 2
state_rank submitted = 3
state_rank observed = 4
state_rank completed = 5
state_rank failed_terminal = 6

abbrev pub same_state : OperationState → OperationState → Bool
same_state a b = state_rank a == state_rank b

-- `requestedAmountAtomic: string | "max"`.
pub data RequestedAmount : Type 0 where
  exact : ℕ → RequestedAmount
  maximum : RequestedAmount

abbrev pub same_amount : RequestedAmount → RequestedAmount → Bool
same_amount (exact a) (exact b) = a == b
same_amount maximum maximum = true
same_amount _ _ = false

pub record Operation : Type 0 where
  pub operation_key : String
  pub request_digest : String
  pub kind : OperationKind
  pub destination : String
  pub requested_amount : RequestedAmount
  pub keep_float : Option ℕ
  pub fee_ceiling : ℕ
  pub retry_limit : ℕ
  pub cancellation_requested : Bool
  pub preparation_fenced : Bool
  pub driver_owner : Option String
  pub driver_generation : ℕ
  pub driver_lease_expires_at_ms : Option ℕ
  pub effect_capability_generation : Option ℕ
  pub submission_in_flight : Bool
  pub resolved_amount : Option ℕ
  pub fee : Option ℕ
  pub transaction_id : Option String
  pub prepared_digest : Option String
  pub prepared_ref : Option String
  pub prepared_byte_length : Option ℕ
  pub policy_digest : String
  pub authorization_evidence_digest : Option String
  pub state : OperationState
  pub retry_count : ℕ
  pub created_at_ms : ℕ
  pub updated_at_ms : ℕ
  pub completed_at_ms : Option ℕ

pub record DriverLease : Type 0 where
  pub owner : String
  pub generation : ℕ
  pub expires_at_ms : ℕ

pub record OperationIntent : Type 0 where
  pub operation_key : String
  pub request_digest : String
  pub kind : OperationKind
  pub destination : String
  pub requested_amount : RequestedAmount
  pub keep_float : Option ℕ
  pub fee_ceiling : ℕ
  pub retry_limit : ℕ
  pub policy_digest : String
  pub authorization_evidence_digest : Option String

-- PreparedTreasuryOperation, its bytes given by their SHA-256 digest, the evidence store's reference to
-- them and their length.
pub record PreparedOperation : Type 0 where
  pub digest : String
  pub storage_ref : String
  pub byte_length : ℕ
  pub transaction_id : String
  pub amount : ℕ
  pub fee : ℕ
  pub policy_digest : String

pub data ObservationStatus : Type 0 where
  seen not_submitted pending superseded : ObservationStatus

abbrev pub status_rank : ObservationStatus → ℕ
status_rank seen = 0
status_rank not_submitted = 1
status_rank pending = 2
status_rank superseded = 3

-- A row of treasury_operation_observations, with its canonical JSON and that text's digest.
pub record Observation : Type 0 where
  pub operation_key : String
  pub status : ObservationStatus
  pub detail_digest : String
  pub detail_json : String
  pub observed_at_ms : ℕ

-- A row of treasury_operation_transitions.
pub record Transition : Type 0 where
  pub operation_key : String
  pub from_state : Option OperationState
  pub to_state : OperationState
  pub reason : String
  pub created_at_ms : ℕ

pub data ReservationState : Type 0 where
  active in_flight spent released expired : ReservationState

pub record Reservation : Type 0 where
  pub id : String
  pub purchase_id : String
  pub policy_digest : String
  pub approval_evidence_digest : Option String
  pub approval_verification_profile : Option String
  pub approval_verifier_id : Option String
  pub payee : String
  pub amount : ℕ
  pub additional_cost_ceiling : ℕ
  pub state : ReservationState
  pub expires_at_ms : ℕ
  pub created_at_ms : ℕ
  pub updated_at_ms : ℕ
  pub in_flight_at_ms : Option ℕ
  pub spent_at_ms : Option ℕ
  pub release_evidence_digest : Option String

-- A row of purchase_settlements, as far as capacity reads it.
pub record Settlement : Type 0 where
  pub actual_amount : ℕ
  pub actual_additional_cost : ℕ
  pub observed_at_ms : ℕ

-- A row of treasury_staging_recovery_accounting, as far as capacity reads it.
pub record RecoveryAccounting : Type 0 where
  pub actual_additional_cost : ℕ
  pub observed_at_ms : ℕ

pub record PolicySnapshot : Type 0 where
  pub digest : String
  pub max_per_payment : ℕ
  pub max_per_hour : ℕ
  pub allowlist : List String

-- An approved row of the join of transfers and transfer_authorizations.
pub record ApprovedTransfer : Type 0 where
  pub treasury_operation_key : String
  pub evidence_digest : String

pub record Journal : Type 0 where
  pub operations : List Operation
  pub transitions : List Transition
  pub observations : List Observation
  pub reservations : List Reservation
  pub settlements : List Settlement
  pub recoveries : List RecoveryAccounting
  pub policies : List PolicySnapshot
  pub active_policy : Option PolicySnapshot
  pub approved_transfers : List ApprovedTransfer

pub state_rank-injective : (a b : OperationState) → state_rank a ≡ state_rank b → a ≡ b
state_rank-injective a b h = ground arith
