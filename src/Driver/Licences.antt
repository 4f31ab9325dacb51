-- ===== src/Driver/Licences.antt =====
-- The licence of a driver of src/treasury/operations.ts to hand bytes to an adapter: a launch that the
-- Journal's log holds.
use native.Mathlib.Nat.{le_trans}
use sompi.Base.{
  ℕ, ◌+◌, ◌-◌, ◌≤◌, Bool, true, false, String, Option, none, some, str_eq, if◌then◌else◌, Result,
  ok, err, arith,
}
use sompi.Treasury.Types.{Operation, DriverLease, Journal}
use sompi.Treasury.Sound.{launches}
use sompi.Treasury.Commands.{Command, call, committed}
use sompi.Treasury.Types.{observed, same_state}
use sompi.Treasury.Tables.{find_operation}
use sompi.Treasury.Commands.{observe}
use sompi.Base.{not, is_operation_key}
use sompi.Driver.Loop.{
  with_row, required, recorded, commit_observed, reconcile, after_submission, commit_or_return,
  launch_submission, is_launched,
}
use sompi.Driver.Process.{
  Preparation, Probe, Drive, returned, threw, read, read_capacity, transact, ask_prepare,
  ask_submit, ask_observe, ask, answered,
}

-- The launches that a transaction adds to the log.
abbrev pub gain : String → Command → Journal → ℕ
gain key c j = launches key (committed j (call c j)) - launches key j

-- With `n` launches of the operation in hand the driver never hands its bytes over without one.
abbrev pub Licensed : String → ℕ → Drive → Type 0
Licensed key n (returned r) = Unit {0}
Licensed key n threw = Unit {0}
Licensed key n (read next) = (j : Journal) → Licensed key n (next j)
Licensed key n (read_capacity next) = (used : ℕ) → Licensed key n (next used)
Licensed key n (transact c next) =
    (seen_at now : ℕ) (j : Journal)
    → Licensed key (n + gain key (c seen_at now) j)
        (next (call (c seen_at now) j) (answered (c seen_at now) j))
Licensed key n (ask_prepare r next) = (a : Preparation) → Licensed key n (next a)
Licensed key n (ask_submit k r next) =
    (m : ℕ) × (m + (if str_eq k key then 1 else 0) ≤ n)
    × ((a : Option String) → Licensed key m (next a))
Licensed key n (ask_observe r next) = (a : Option Probe) → Licensed key n (next a)
Licensed key n (ask q next) = (b : Bool) → Licensed key n (next b)

pub weaken : (key : String) (d : Drive) (n m : ℕ) → n ≤ m → Licensed key n d → Licensed key m d
weaken key (returned r) n m le h = tt
weaken key threw n m le h = tt
weaken key (read next) n m le h = λ j. weaken key (next j) n m le (h j)
weaken key (read_capacity next) n m le h = λ u. weaken key (next u) n m le (h u)
weaken key (transact c next) n m le h = λ seen_at now j.
    weaken key (next (call (c seen_at now) j) (answered (c seen_at now) j))
      (n + gain key (c seen_at now) j) (m + gain key (c seen_at now) j) (omega (arith, le))
      (h seen_at now j)
weaken key (ask_prepare r next) n m le h = λ a. weaken key (next a) n m le (h a)
weaken key (ask_submit k r next) n m le (l, fits, h) = (l, le_trans fits le, h)
weaken key (ask_observe r next) n m le h = λ a. weaken key (next a) n m le (h a)
weaken key (ask q next) n m le h = λ b. weaken key (next b) n m le (h b)

module _ (key : String) where
  pub row_free :
      (n : ℕ) (o : Option Operation) (next : Operation → Drive)
      → ((r : Operation) → Licensed key n (next r))
      → Licensed key n (with_row o next)
  row_free n none next h = tt
  row_free n (some r) next h = h r

  pub if_free :
      (n : ℕ) (b : Bool) (d e : Drive)
      → Licensed key n d
      → Licensed key n e
      → Licensed key n (if b then d else e)
  if_free n true d e h k = h
  if_free n false d e h k = k

  pub required_free :
      (n : ℕ) (k : String) (next : Operation → Drive)
      → ((r : Operation) → Licensed key n (next r))
      → Licensed key n (required k next)
  unfolding required
  required_free n k next h j =
      if_free n (is_operation_key k) _ _ (row_free n (find_operation k j.operations) next h) tt

  -- A transaction whose continuation is licensed for every answer.
  pub transact_free :
      (n : ℕ) (c : (seen_at now : ℕ) → Command) (next : Result Journal → Bool → Drive)
      → ((m : Result Journal) (b : Bool) → Licensed key n (next m b))
      → Licensed key n (transact c next)
  transact_free n c next h = λ seen_at now j.
      weaken key _ n (n + gain key (c seen_at now) j) (omega arith)
        (h (call (c seen_at now) j) (answered (c seen_at now) j))

  pub result_free :
      (n : ℕ) (m : Result Journal) (next : Journal → Drive)
      → ((j : Journal) → Licensed key n (next j))
      → Licensed key n (elim m [ err _ ↦ threw | ok j ↦ next j ])
  result_free n (err e) next h = tt
  result_free n (ok j) next h = h j

  pub recorded_free :
      (n : ℕ) (k : String) (c : (seen_at now : ℕ) → Command) (next : Operation → Drive)
      → ((r : Operation) → Licensed key n (next r))
      → Licensed key n (recorded k c next)
  unfolding recorded
  recorded_free n k c next h =
      transact_free n c _
        λ m _. result_free n m _ λ j. row_free n (find_operation k j.operations) next h

  pub committed_free :
      (n : ℕ) (k : String) (lease : DriverLease) (r : Operation)
      → Licensed key n (commit_observed k lease r)
  unfolding commit_observed
  committed_free n k lease r = λ stored.
      if_free n (not stored) _ _ tt
        λ done. if_free n (not done) _ _ tt (recorded_free n k _ returned λ _. tt)

  probed_free :
      (n : ℕ) (k : String) (lease : DriverLease) (next : Operation → Drive)
      → ((r : Operation) → Licensed key n (next r))
      → (p : Option Probe)
      → Licensed key n (elim p [
        | none ↦ threw
        | some p ↦
            recorded k
              (λ seen_at now.
                observe k p.status p.digest p.json p.byte_length (some lease) seen_at now)
              next
      ])
  probed_free n k lease next h none = tt
  probed_free n k lease next h (some p) = recorded_free n k _ next h

  pub reconcile_free :
      (n : ℕ) (k : String) (lease : DriverLease) (r : Operation) (next : Operation → Drive)
      → ((r : Operation) → Licensed key n (next r))
      → Licensed key n (reconcile k lease r next)
  unfolding reconcile
  reconcile_free n k lease r next h =
      if_free n (not (is_launched r.state)) _ _ (h r)
        λ stored. if_free n (not stored) _ _ tt λ probe. probed_free n k lease next h probe

  after_submission_free :
      (n : ℕ) (k : String) (lease : DriverLease) (answer : Option String)
      → Licensed key n (after_submission k lease answer)
  unfolding after_submission commit_or_return
  after_submission_free n k lease none =
      required_free n k _ λ r. reconcile_free n k lease r returned λ _. tt
  after_submission_free n k lease (some id) = recorded_free n k _ _ λ r.
      reconcile_free n k lease r _
        λ s. if_free n (same_state s.state observed) _ _ (committed_free n k lease s) tt

  -- One launch of the operation covers the one submission.
  pub launch_covered :
      (n m : ℕ) (k : String) (lease : DriverLease)
      → m + (if str_eq k key then 1 else 0) ≤ n
      → Licensed key n (launch_submission k lease)
  unfolding launch_submission
  launch_covered n m k lease fits =
      required_free n k _ λ r.
        λ stored. if_free n (not stored) _ _ tt (m, fits, λ a. after_submission_free m k lease a)
