-- ===== src/Treasury/Startup.antt =====
-- What the check of a direct operation finds when src/purchase/journal.ts is opened again.
use sompi.Base.{
  ℕ, ◌≡◌, refl, ap, ◌∙◌, true, false, String, Option, some, List, Error, Result, ok, err, arith,
}
use sompi.Treasury.Types.{Operation, Journal, DriverLease, failed_terminal, superseded}
use sompi.Treasury.Rows.{observe_row, moved}
use sompi.Treasury.Tables.{find_operation}
use sompi.Treasury.Audit.{history_of, audit_history, audit_operation, facts_agree, observed_count}
use sompi.Treasury.Logs.{Chained, chain, state_of, in_order, audit_history-chain}
use sompi.Treasury.Commands.{Command, run}
use sompi.Treasury.Safety.{IsFresh, run-Sound}

fresh_log : (key : String) (j : Journal) → IsFresh j → Chained key j
unfolding history_of chain find_operation
fresh_log key j (no_rows, no_log) = rw (no_rows, no_log) refl

-- From tables without operations, after any calls, the log of each operation whose times never go back passes
-- the check of its history, which ends in the state of its row.
pub run-audit_history :
    (cs : List Command) (j : Journal) (key : String) (r : Operation)
    → IsFresh j
    → find_operation key (run cs j).operations ≡ some r
    → in_order 0 (history_of key (run cs j).transitions) ≡ true
    → audit_history (history_of key (run cs j).transitions) ≡ ok r.state
run-audit_history cs j key r fresh found ordered =
    audit_history-chain (history_of key (run cs j).transitions) r.state
      ((run-Sound cs j).chained key (fresh_log key j fresh) ∙ ap (λ o. ok (state_of o)) found)
      ordered

observe_row-superseded :
    (driver : Option DriverLease) (seen_at now : ℕ) (r r' : Operation) (why : Option String)
    → observe_row superseded driver seen_at now r ≡ ok (moved r' why)
    → (r'.state ≡ failed_terminal) × (r'.completed_at_ms ≡ some now)
unfolding observe_row
observe_row-superseded driver seen_at now r r' why h = ground arith

audit_operation-facts :
    (read_prepared : Operation → Result (Unit {0})) (j : Journal) (r : Operation)
    → audit_operation read_prepared j r ≡ ok tt
    → facts_agree r (observed_count r.operation_key j.observations) ≡ true
unfolding audit_operation
audit_operation-facts read_prepared j r h = ground arith

refused : (m : Result (Unit {0})) → (m ≡ ok tt → ⊥) → (e : Error) × (m ≡ err e)
refused (ok tt) h = absurd (h refl)
refused (err e) h = (e, refl)

failed_facts :
    (r : Operation) (at n : ℕ)
    → r.state ≡ failed_terminal
    → r.completed_at_ms ≡ some at
    → facts_agree r n ≡ false
unfolding facts_agree
failed_facts r at n s c = ground arith

-- A direct operation that a superseding observation has ended is refused when the Journal is opened again,
-- whatever the tables and the evidence store hold: the observation gives the failed row a completion
-- time, which the check allows to completed rows only.
pub superseded-audit_operation :
    (driver : Option DriverLease) (seen_at now : ℕ) (r r' : Operation) (why : Option String)
    (read_prepared : Operation → Result (Unit {0})) (j : Journal)
    → observe_row superseded driver seen_at now r ≡ ok (moved r' why)
    → (e : Error) × (audit_operation read_prepared j r' ≡ err e)
superseded-audit_operation driver seen_at now r r' why read_prepared j h =
    let (failed, at) = observe_row-superseded driver seen_at now r r' why h in
    let facts = failed_facts r' now (observed_count r'.operation_key j.observations) failed at in
    refused (audit_operation read_prepared j r')
      (λ passed. absurd (cc (audit_operation-facts read_prepared j r' passed)))
