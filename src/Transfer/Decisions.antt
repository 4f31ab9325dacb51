-- ===== src/Transfer/Decisions.antt =====
-- recordTransferAuthorization and recordTransferReceipt of src/purchase/journal.ts. SHA-256 and the JSON texts
-- of the language are parameters.
use sompi.Base.{
  ℕ, ◌==◌, ◌&&◌, ◌||◌, not, Bool, true, false, String, Option, none, some, ◌∷◌, leb, str_eq, opt_eq,
  is_some, any_by, find_row, length, codes, Result, ok, err, ◌>>=◌, ◌>>◌, require, invariant,
  sqlite_constraint, is_transfer_id, is_digest, is_bounded_text, if◌then◌else◌,
}
use sompi.Transfer.Lifecycle.{
  awaiting_authority, authorised, denied, settled, receipted, same_transfer_state,
}
use sompi.Transfer.Rows.{
  Transfer, TransferFacts, Authorization, TransferReceipt, ReceiptRow, Transfers, authorization_id,
  receipt_id, require_transfer, transition_transfer_internal,
}
use sompi.Transfer.Intake.{is_safe_integer}

-- The digest of a text, and the texts of facts and receipts.
pub record Encoding : Type 0 where
  pub sha256 : String → String
  pub facts_json : TransferFacts → String
  pub receipt_json : TransferReceipt → String

-- TransferAuthorityDecision, its evidence a text of bytes; `approved` is its decision.
pub record TransferAuthorityDecision : Type 0 where
  pub approved : Bool
  pub authority_id : String
  pub denial_code : Option String
  pub evidence : String
  pub evidence_digest : String
  pub facts_digest : String
  pub verification_profile : String
  pub verifier_id : String
  pub decided_at_ms : ℕ

abbrev pub denial_fits : Bool → Option String → Bool
denial_fits true code = not (is_some code)
denial_fits false none = false
denial_fits false (some code) = str_eq code "user_denied" || str_eq code "terms_expired"

-- validateTransferAuthorityDecision.
unfoldable pub validate_transfer_authority_decision : TransferAuthorityDecision → Result (Unit {0})
unfolding codes
validate_transfer_authority_decision d = do
  require (leb 1 (length (codes d.evidence)) && leb (length (codes d.evidence)) 262144) invariant
  require (is_digest d.evidence_digest && is_digest d.facts_digest) invariant
  require (is_bounded_text d.authority_id 200) invariant
  require (is_bounded_text d.verification_profile 200 && is_bounded_text d.verifier_id 200)
      invariant
  require (is_safe_integer d.decided_at_ms && leb 1 d.decided_at_ms) invariant
  require (denial_fits d.approved d.denial_code) invariant

-- assertTransferFactsMatchIntent.
unfoldable pub facts_match : TransferFacts → Transfer → Bool
facts_match f t =
    str_eq f.transfer_id t.id
    && str_eq f.request_key t.request_key
    && str_eq f.source_vault_address t.source_vault_address
    && str_eq f.source_vault_digest t.source_vault_digest
    && str_eq f.destination t.destination
    && f.amount == t.amount
    && str_eq f.asset "KAS"
    && str_eq f.network "kaspa:testnet-10"
    && f.fee_ceiling == t.fee_ceiling
    && f.maximum_total == t.maximum_total
    && f.issued_at_ms == t.created_at_ms
    && f.expires_at_ms == t.expires_at_ms
    && str_eq f.policy_digest t.policy_digest
    && f.operator_manifest_revision == t.manifest_revision
    && str_eq f.operator_manifest_digest t.manifest_digest
    && str_eq f.finality_floor t.finality_floor

-- assertTransferReceiptMatches.
unfoldable pub receipt_matches : TransferReceipt → Transfer → Bool
receipt_matches r t =
    str_eq r.profile "urn:sompi:receipt:transfer:1"
    && str_eq r.transfer_id t.id
    && str_eq r.request_key t.request_key
    && str_eq r.destination t.destination
    && r.amount == t.amount
    && str_eq r.network "kaspa:testnet-10"
    && str_eq r.funding_source "vault-treasury"
    && str_eq r.funding_summary "Sent securely from your protected Sompi wallet."
    && opt_eq str_eq (some r.transaction_id) t.transaction_id
    && str_eq r.finality t.finality_floor
    && opt_eq ◌==◌ (some r.fee) t.actual_fee
    && is_some r.settled_at

module _ (E : Encoding) where
  -- sameTransferAuthorization.
  unfoldable pub same_transfer_authorization :
      Authorization → TransferFacts → TransferAuthorityDecision → Bool
  same_transfer_authorization a facts d =
      str_eq a.facts_digest d.facts_digest
      && str_eq a.evidence_digest d.evidence_digest
      && (if a.approved then d.approved else not d.approved)
      && str_eq a.authority_id d.authority_id
      && str_eq (E.facts_json a.facts) (E.facts_json facts)

  abbrev pub same_authorization :
      Option Authorization → TransferFacts → TransferAuthorityDecision → Bool
  same_authorization none facts d = false
  same_authorization (some a) facts d = same_transfer_authorization a facts d

  -- The row that recordTransferAuthorization inserts.
  abbrev pub authorization_row :
      Transfer → TransferFacts → TransferAuthorityDecision → Authorization
  authorization_row t facts d = record {
    transfer_id = t.id;
    facts = facts;
    facts_digest = d.facts_digest;
    approved = d.approved;
    authority_id = d.authority_id;
    denial_code = d.denial_code;
    evidence_digest = d.evidence_digest;
    verification_profile = d.verification_profile;
    verifier_id = d.verifier_id;
    decided_at_ms = d.decided_at_ms;
    expires_at_ms = t.expires_at_ms;
  }

  -- The keys of transfer_authorizations, as its INSERT meets them.
  abbrev pub authorization_clashes : String → TransferAuthorityDecision → Authorization → Bool
  authorization_clashes id d a =
      str_eq a.transfer_id id
      || str_eq a.facts_digest d.facts_digest
      || str_eq a.evidence_digest d.evidence_digest

  -- The decision on a Transfer that awaits it.
  unfoldable pub decide_transfer :
      Transfer
      → TransferFacts
      → TransferAuthorityDecision
      → (now : ℕ) → Transfers
      → Result Transfers
  decide_transfer t facts d now s = do
    require (facts_match facts t) invariant
    require (leb d.decided_at_ms t.expires_at_ms) invariant
    require (not (any_by (authorization_clashes t.id d) s.authorizations)) sqlite_constraint
    decided ←
        transition_transfer_internal t (if d.approved then authorised else denied)
          (if d.approved then "authorization_approved" else "authorization_denied")
          (some d.evidence_digest) now
          (record s { authorizations = authorization_row t facts d ∷ s.authorizations })
    ok decided.0

  -- recordTransferAuthorization.
  unfoldable pub record_transfer_authorization :
      String → TransferFacts → TransferAuthorityDecision → (now : ℕ) → Transfers → Result Transfers
  record_transfer_authorization id facts d now s = do
    require (is_transfer_id id) invariant
    require (str_eq facts.profile "sompi.transfer.1") invariant
    require (str_eq facts.transfer_id id && str_eq d.facts_digest (E.sha256 (E.facts_json facts)))
        invariant
    validate_transfer_authority_decision d
    require (str_eq (E.sha256 d.evidence) d.evidence_digest) invariant
    t ← require_transfer id s
    if same_transfer_state t.state awaiting_authority
        then decide_transfer t facts d now s
        else if same_authorization (find_row authorization_id id s.authorizations) facts d
        then ok s
        else err invariant

  abbrev pub same_receipt : Option ReceiptRow → TransferReceipt → Bool
  same_receipt none receipt = false
  same_receipt (some r) receipt = str_eq (E.receipt_json r.receipt) (E.receipt_json receipt)

  -- The row that recordTransferReceipt inserts.
  abbrev pub receipt_row : Transfer → TransferReceipt → ℕ → ReceiptRow
  receipt_row t receipt now = record {
    transfer_id = t.id;
    receipt = receipt;
    receipt_digest = E.sha256 (E.receipt_json receipt);
    created_at_ms = now;
  }

  -- The receipt of a settled Transfer.
  unfoldable pub receipt_transfer :
      Transfer → TransferReceipt → (now : ℕ) → Transfers → Result Transfers
  receipt_transfer t receipt now s = do
    let digest = E.sha256 (E.receipt_json receipt)
    require (same_transfer_state t.state settled) invariant
    require (receipt_matches receipt t) invariant
    require
        (not (any_by (λ r. str_eq r.transfer_id t.id || str_eq r.receipt_digest digest) s.receipts))
        sqlite_constraint
    recorded ←
        transition_transfer_internal t receipted "receipt_recorded" (some digest) now
          (record s { receipts = receipt_row t receipt now ∷ s.receipts })
    ok recorded.0

  -- recordTransferReceipt.
  unfoldable pub record_transfer_receipt :
      String → TransferReceipt → (now : ℕ) → Transfers → Result Transfers
  record_transfer_receipt id receipt now s = do
    require (is_transfer_id id) invariant
    t ← require_transfer id s
    if same_transfer_state t.state receipted
        then (if same_receipt (find_row receipt_id id s.receipts) receipt
            then ok s
            else err invariant)
        else receipt_transfer t receipt now s
