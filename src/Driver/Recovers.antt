-- ===== src/Driver/Recovers.antt =====
-- Recovery by a driver of src/treasury/operations.ts that finds a submission under way.
use sompi.Base.{
  not, ℕ, zero, suc, ◌≡◌, refl, ◌∙◌, ap, true, false, ◌&&◌, ◌||◌, if◌then◌else◌, String, some, [],
  is_operation_key, arith,
}
use sompi.Treasury.Types.{Operation, DriverLease, Journal, intent, observed, completed, same_state}
use sompi.Treasury.Rows.{moved, is_terminal, is_open_preparation, driver_owns}
use sompi.Treasury.Tables.{find_operation, write_outcome}
use sompi.Treasury.Handlers.{insert_observation, observation_row}
use sompi.Driver.Process.{evidence, adapter, threw, commit, Probe, Drive, returned}
use sompi.Driver.Loop.{
  commit_observed, reconcile, after_preparation, after_reconciliation, prepare_intent, drive_owned,
  is_launched,
}
use sompi.Driver.Runs.{Surroundings, finish}
use sompi.Driver.Steps.{
  IsKind, seen_row, completed_row, written_row, observed-inserted, observe-call, complete-call,
  ask_step, observe_step, required_step, recorded_step,
}

module _ (s : Surroundings) (p : Probe) (lease : DriverLease) where
  finish-returned :
      (f i : ℕ) (r : Operation) (j : Journal) → finish s f i (returned r) j ≡ some (returned r, j)
  unfolding finish
  finish-returned zero i r j = refl
  finish-returned (suc f) i r j = refl

  -- The tables after completeTreasuryOperation at the request of number `i`.
  abbrev completed_tables : String → ℕ → Operation → Journal → Journal
  completed_tables key i r j =
      write_outcome key (s.now i) r
        (moved (completed_row (s.now i) r) (some "local_commit_complete")) j

  commit-finishes :
      (f i : ℕ) (key : String) (j : Journal) (r : Operation)
      → is_operation_key key ≡ true
      → find_operation key j.operations ≡ some r
      → r.state ≡ observed
      → ((i : ℕ) → driver_owns r lease (s.seen_at i) ≡ true)
      → ((i : ℕ) → s.meanwhile i ≡ [])
      → ((i : ℕ) → s.replies i ≡ true)
      → finish s (suc (suc (suc f))) i (commit_observed key lease r) j
        ≡ some (
          returned (completed_row (s.now (suc (suc i))) r),
          completed_tables key (suc (suc i)) r j,
        )
  unfolding commit_observed
  commit-finishes f i key j r named found is_observed owned alone replied =
      let at = suc (suc i) in
      ask_step s p lease (suc (suc f)) i evidence _ j (alone i) (replied i)
      ∙ ask_step s p lease (suc f) (suc i) (commit r) _ j (alone (suc i)) (replied (suc i))
      ∙ recorded_step s p lease f at key _ returned j _ (completed_row (s.now at) r) (alone at)
          (complete-call key lease (s.seen_at at) (s.now at) j r named found is_observed (owned at))
          (written_row key (s.now at) r (completed_row (s.now at) r) _ j j refl found refl)
      ∙ finish-returned f (suc at) _ _

  -- reconcile of a submission under way, to the row that it leaves.
  reconcile-finishes :
      (f i : ℕ) (key : String) (j : Journal) (r : Operation) (next : Operation → Drive)
      → is_operation_key key ≡ true
      → find_operation key j.operations ≡ some r
      → is_launched r.state ≡ true
      → IsKind s p lease r
      → (j' : Journal) × (find_operation key j'.operations
          ≡ some (seen_row (s.now (suc (suc i))) r))
        × (finish s (suc (suc (suc f))) i (reconcile key lease r next) j
            ≡ finish s f (suc (suc (suc i))) (next (seen_row (s.now (suc (suc i))) r)) j')
  unfolding reconcile
  reconcile-finishes f i key j r next named found under_way kind =
      let at = suc (suc i) in
      let row = observation_row key p.status p.digest p.json (s.now at) in
      let held =
        written_row key (s.now at) r (seen_row (s.now at) r) (some "chain_observed") j
          (insert_observation row j) (observed-inserted row j) found refl in
      (
        write_outcome key (s.now at) r (moved (seen_row (s.now at) r) (some "chain_observed"))
            (insert_observation row j),
        held,
        rw under_way (
            ask_step s p lease (suc (suc f)) i evidence _ j (kind.alone i) (kind.yes i)
            ∙ observe_step s p lease (suc f) (suc i) r _ j (kind.alone (suc i)) (kind.sees (suc i))
            ∙ recorded_step s p lease f at key _ next j _ (seen_row (s.now at) r) (kind.alone at)
                (observe-call key p lease (s.seen_at at) (s.now at) j r named found under_way
                  (kind.owned at) kind.is_seen kind.small)
                held),
      )

owned_next :
    (key : String) (lease : DriverLease) (r : Operation)
    → is_launched r.state ≡ true
    → r.preparation_fenced ≡ false
    → (if not true
        then threw
        else if is_terminal r.state
        then returned r
        else if r.preparation_fenced || (r.cancellation_requested && is_open_preparation r.state)
        then returned r
        else if same_state r.state intent
        then prepare_intent key lease r
        else after_preparation key lease r)
      ≡ reconcile key lease r (after_reconciliation key lease)
unfolding after_preparation after_reconciliation
owned_next key lease r under_way open_gate = ground (arith, under_way, open_gate)

-- Recovery completes: a driver that owns an operation whose submission is planned or accepted and which is not fenced,
-- with nobody interfering, an adapter that sees the effect, an evidence store and a commit that
-- answer and a lease that lasts, returns after at most 23 requests with the operation completed, and the
-- Journal holds it completed.
pub finish-drive_owned :
    (s : Surroundings) (p : Probe) (lease : DriverLease) (key : String) (j : Journal)
    (r : Operation)
    → is_operation_key key ≡ true
    → find_operation key j.operations ≡ some r
    → is_launched r.state ≡ true
    → r.preparation_fenced ≡ false
    → IsKind s p lease r
    → (r' : Operation) × (j' : Journal) × (finish s 23 0 (drive_owned key lease) j
        ≡ some (returned r', j'))
      × (find_operation key j'.operations ≡ some r')
      × (r'.state ≡ completed)
unfolding drive_owned driver_owns after_reconciliation
finish-drive_owned s p lease key j r named found under_way open_gate kind =
    let (j1, held, reconciled) =
      reconcile-finishes s p lease 18 2 key j r (after_reconciliation key lease) named found
        under_way kind in
    let seen_now = seen_row (s.now 4) r in
    let last = completed_row (s.now 7) seen_now in
    (
      last,
      completed_tables s p lease key 7 seen_now j1,
      required_step s p lease 22 0 key _ j r (kind.alone 0) named found
          ∙ ask_step s p lease 21 1 (adapter r.kind) _ j (kind.alone 1) (kind.yes 1)
          ∙ ap (λ d. finish s 21 2 d j) (owned_next key lease r under_way open_gate)
          ∙ reconciled
          ∙ commit-finishes s p lease 15 5 key j1 seen_now named held refl kind.owned kind.alone
              kind.yes,
      written_row key (s.now 7) seen_now last _ j1 j1 refl held refl,
      refl,
    )
