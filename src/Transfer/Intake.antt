-- ===== src/Transfer/Intake.antt =====
-- claimTransferIntent and transitionTransfer of src/purchase/journal.ts, and the module's own transitions
-- (src/transfer/module.ts).
use sompi.Base.{
  ℕ, ◌+◌, ◌-◌, ◌^◌, ◌==◌, ◌&&◌, ◌||◌, not, Bool, true, false, String, Option, none, some, List, [],
  ◌∷◌, ◌++◌, leb, str_eq, any_by, find_row, Result, ok, err, ◌>>=◌, ◌>>◌, require, or_throw,
  invariant, not_found, request_conflict, sqlite_constraint, is_transfer_id, is_operation_key,
  is_digest, is_address, is_bounded_text, if◌then◌else◌,
}
use sompi.Treasury.Types.{PolicySnapshot}
use sompi.Treasury.Tables.{find_policy}
use sompi.Transfer.Lifecycle.{
  TransferState, created, funds_reserved, prepared, submitted, settled, failed_recoverable,
  same_transfer_state,
}
use sompi.Transfer.Rows.{
  Transfer, Transfers, transfer_id, require_transfer, transition_transfer_internal,
}

-- The integers that Number.isSafeInteger admits.
abbrev pub is_safe_integer : ℕ → Bool
is_safe_integer n = leb n (2 ^ 53 - 1)

-- assertTransferAtomic, on the number that the text denotes.
unfoldable pub is_transfer_atomic : ℕ → (zero_allowed : Bool) → Bool
is_transfer_atomic n zero_allowed = leb n (2 ^ 64 - 1) && (zero_allowed || not (n == 0))

pub record TransferJournalIntent : Type 0 where
  pub id : String
  pub request_key : String
  pub request_digest : String
  pub destination : String
  pub amount : ℕ
  pub source_vault_address : String
  pub source_vault_digest : String
  pub fee_ceiling : ℕ
  pub maximum_total : ℕ
  pub expires_at_ms : ℕ
  pub policy_digest : String
  pub manifest_revision : ℕ
  pub manifest_digest : String
  pub finality_floor : String

-- validateTransferIntent. The check of a request key is that of an operation key.
unfoldable pub validate_transfer_intent : TransferJournalIntent → Result (Unit {0})
unfolding is_transfer_atomic
validate_transfer_intent input = do
  require (is_transfer_id input.id && is_operation_key input.request_key) invariant
  require (is_digest input.request_digest && is_address input.destination) invariant
  require (is_transfer_atomic input.amount false && is_address input.source_vault_address) invariant
  require (is_digest input.source_vault_digest) invariant
  require
      (is_transfer_atomic input.fee_ceiling true && is_transfer_atomic input.maximum_total false)
      invariant
  require (input.amount + input.fee_ceiling == input.maximum_total) invariant
  require (is_safe_integer input.expires_at_ms && leb 1 input.expires_at_ms) invariant
  require (is_digest input.policy_digest) invariant
  require (is_safe_integer input.manifest_revision && leb 1 input.manifest_revision) invariant
  require (is_digest input.manifest_digest) invariant
  require (str_eq input.finality_floor "accepted" || str_eq input.finality_floor "depth-confirmed")
      invariant

-- sameTransferIntent.
unfoldable pub same_transfer_intent : Transfer → TransferJournalIntent → Bool
same_transfer_intent t input =
    str_eq t.request_key input.request_key
    && str_eq t.request_digest input.request_digest
    && str_eq t.destination input.destination
    && t.amount == input.amount

-- The Operator Manifest that the Journal is bound to: revision and digest.
abbrev pub Manifest : Type 0
Manifest = Option (ℕ × String)

abbrev pub manifest_is : Manifest → ℕ → String → Bool
manifest_is none revision digest = false
manifest_is (some (r, d)) revision digest = r == revision && str_eq d digest

abbrev pub request_key : Transfer → String
request_key t = t.request_key

-- The row that claimTransferIntent inserts.
unfoldable pub new_transfer : TransferJournalIntent → ℕ → Transfer
new_transfer input now = record {
  id = input.id;
  request_key = input.request_key;
  request_digest = input.request_digest;
  state = created;
  destination = input.destination;
  amount = input.amount;
  source_vault_address = input.source_vault_address;
  source_vault_digest = input.source_vault_digest;
  fee_ceiling = input.fee_ceiling;
  maximum_total = input.maximum_total;
  expires_at_ms = input.expires_at_ms;
  policy_digest = input.policy_digest;
  manifest_revision = input.manifest_revision;
  manifest_digest = input.manifest_digest;
  finality_floor = input.finality_floor;
  treasury_operation_key = none;
  transaction_id = none;
  actual_fee = none;
  failure_code = none;
  version = 0;
  created_at_ms = now;
  updated_at_ms = now;
}

-- claimTransferIntent on a request key that the Journal does not hold.
unfoldable pub claim_new_transfer :
    TransferJournalIntent
    → (policies : List PolicySnapshot) (manifest : Manifest) (now : ℕ) → Transfers
    → Result Transfers
unfolding new_transfer
claim_new_transfer input policies manifest now s =
    elim (find_row transfer_id input.id s.transfers) [
      | some t ↦ err invariant
      | none ↦ (do
        policy ← or_throw (find_policy input.policy_digest policies) not_found
        require (manifest_is manifest input.manifest_revision input.manifest_digest) invariant
        require (not (any_by (λ t. str_eq t.request_digest input.request_digest) s.transfers))
            sqlite_constraint
        ok (record s {
          transfers = new_transfer input now ∷ s.transfers;
          transitions =
              s.transitions
              ++ record {
                transfer_id = input.id;
                from_state = none;
                to_state = created;
                reason_code = "intent_recorded";
                detail_digest = none;
                created_at_ms = now;
              }
                ∷ [];
        }))
    ]

-- claimTransferIntent.
unfoldable pub claim_transfer_intent :
    TransferJournalIntent
    → (policies : List PolicySnapshot) (manifest : Manifest) (now : ℕ) → Transfers
    → Result Transfers
claim_transfer_intent input policies manifest now s = do
  validate_transfer_intent input
  elim (find_row request_key input.request_key s.transfers) [
    | some t ↦ if same_transfer_intent t input then ok s else err request_conflict
    | none ↦ claim_new_transfer input policies manifest now s
  ]

abbrev pub is_detail : Option String → Bool
is_detail none = true
is_detail (some digest) = is_digest digest

-- transitionTransfer.
unfoldable pub transition_transfer :
    String
    → TransferState
    → String
    → Option String
    → (now : ℕ) → Transfers
    → Result (Transfers × Transfer)
transition_transfer id to reason detail now s = do
  require (is_transfer_id id) invariant
  require (is_bounded_text reason 120) invariant
  require (is_detail detail) invariant
  t ← require_transfer id s
  transition_transfer_internal t to reason detail now s

-- markRecoverable of the module.
unfoldable pub mark_recoverable :
    String → String → (now : ℕ) → Transfers → Result (Transfers × Transfer)
mark_recoverable id reason now s = do
  t ← require_transfer id s
  if any_by (same_transfer_state t.state) (funds_reserved ∷ prepared ∷ submitted ∷ settled ∷ [])
      then transition_transfer id failed_recoverable reason none now s
      else ok (s, t)
