-- ===== src/Examples/Data.antt =====
-- A policy, a payment and its rows, for the examples on src/purchase/journal.ts.
use sompi.Base.{false, String, none, some, List, [], ◌∷◌, ◌++◌}
use sompi.Treasury.Types.{
  Operation, OperationIntent, PreparedOperation, DriverLease, PolicySnapshot, Journal, wallet_send,
  exact, intent, prepared, completed, seen,
}
use sompi.Treasury.Commands.{Command}

abbrev pub policy_digest : String
policy_digest = "sha256:AAAAAAAAAAAAAAAAAAAAAAAAAAAAAAAAAAAAAAAAAAA"

abbrev pub request_digest : String
request_digest = "sha256:BBBBBBBBBBBBBBBBBBBBBBBBBBBBBBBBBBBBBBBBBBB"

abbrev pub other_digest : String
other_digest = "sha256:CCCCCCCCCCCCCCCCCCCCCCCCCCCCCCCCCCCCCCCCCCC"

abbrev pub transaction_id : String
transaction_id = "0123456789abcdef0123456789abcdef0123456789abcdef0123456789abcdef"

abbrev pub payee : String
payee = "kaspatest:qpayee"

abbrev pub policy : PolicySnapshot
policy = record {
  digest = policy_digest;
  max_per_payment = 1000;
  max_per_hour = 2000;
  allowlist = payee ∷ [];
}

abbrev pub start : Journal
start = record {
  operations = [];
  transitions = [];
  observations = [];
  reservations = [];
  settlements = [];
  recoveries = [];
  policies = policy ∷ [];
  active_policy = some policy;
  approved_transfers = [];
}

abbrev pub payment : OperationIntent
payment = record {
  operation_key = "payment-1";
  request_digest = request_digest;
  kind = wallet_send;
  destination = payee;
  requested_amount = exact 500;
  keep_float = none;
  fee_ceiling = 20;
  retry_limit = 3;
  policy_digest = policy_digest;
  authorization_evidence_digest = none;
}

abbrev pub second_payment : OperationIntent
second_payment = record payment { operation_key = "payment-2"; request_digest = other_digest }

abbrev pub material : PreparedOperation
material = record {
  digest = other_digest;
  storage_ref = "evidence-1";
  byte_length = 300;
  transaction_id = transaction_id;
  amount = 500;
  fee = 12;
  policy_digest = policy_digest;
}

abbrev pub first_lease : DriverLease
first_lease = record { owner = "driver-a"; generation = 1; expires_at_ms = 31000 }

abbrev pub second_lease : DriverLease
second_lease = record { owner = "driver-b"; generation = 2; expires_at_ms = 90000 }

abbrev pub preparing : List Command
preparing =
    Command.claim_intent payment 1000
    ∷ Command.claim_driver "payment-1" "driver-a" 30000 1000
    ∷ Command.prepare "payment-1" material (some first_lease) 1500 1501
    ∷ []

-- The second driver takes over after the first lease has run out.
abbrev pub paying : List Command
paying =
    Command.claim_driver "payment-1" "driver-b" 30000 60000
    ∷ Command.plan "payment-1" (some second_lease) 60001 60002
    ∷ Command.claim_capability "payment-1" second_lease 60003 60004
    ∷ Command.claim_capability "payment-1" second_lease 60005 60006
    ∷ Command.accept "payment-1" transaction_id (some second_lease) 60007 60008
    ∷ Command.observe "payment-1" seen other_digest "{}" 2 (some second_lease) 60009 60010
    ∷ Command.complete "payment-1" (some second_lease) 60011 60012
    ∷ []

abbrev pub history : List Command
history = preparing ++ paying

-- The new row of the payment.
abbrev pub intent_row : Operation
intent_row = record {
  operation_key = "payment-1";
  request_digest = request_digest;
  kind = wallet_send;
  destination = payee;
  requested_amount = exact 500;
  keep_float = none;
  fee_ceiling = 20;
  retry_limit = 3;
  cancellation_requested = false;
  preparation_fenced = false;
  driver_owner = none;
  driver_generation = 0;
  driver_lease_expires_at_ms = none;
  effect_capability_generation = none;
  submission_in_flight = false;
  resolved_amount = some 500;
  fee = none;
  transaction_id = none;
  prepared_digest = none;
  prepared_ref = none;
  prepared_byte_length = none;
  policy_digest = policy_digest;
  authorization_evidence_digest = none;
  state = intent;
  retry_count = 0;
  created_at_ms = 1000;
  updated_at_ms = 1000;
  completed_at_ms = none;
}

abbrev pub prepared_row : Operation
prepared_row = record intent_row {
  resolved_amount = some 500;
  fee = some 12;
  transaction_id = some transaction_id;
  prepared_digest = some other_digest;
  prepared_ref = some "evidence-1";
  prepared_byte_length = some 300;
  state = prepared;
  driver_owner = some "driver-a";
  driver_generation = 1;
  driver_lease_expires_at_ms = some 31000;
}

abbrev pub holding : Operation → Journal
holding r = record start { operations = r ∷ [] }

abbrev pub final_row : Operation
final_row = record prepared_row {
  driver_owner = some "driver-b";
  driver_generation = 2;
  driver_lease_expires_at_ms = some 90000;
  effect_capability_generation = some 2;
  state = completed;
  updated_at_ms = 60012;
  completed_at_ms = some 60012;
}
