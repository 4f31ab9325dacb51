-- ===== src/Driver/Once.antt =====
-- What any number of drivers of src/treasury/operations.ts over one Journal hand to their adapters.
use native.Mathlib.Nat.{le_trans}
use sompi.Base.{ℕ, zero, suc, ◌+◌, ◌≤◌, String, List, [], ◌∷◌, str_eq, count_by-append, arith, none}
use sompi.Treasury.Types.{Journal}
use sompi.Treasury.Readouts.{treasury_policy_capacity_used}
use sompi.Treasury.Capacity.{expire_reservations, policy_capacity_used}
use sompi.Treasury.Calls.{find-expire, transitions-expire}
use sompi.Treasury.Histories.{unchanged-Sound}
use sompi.Treasury.Sound.{Sound, Sound-refl, launches}
use sompi.Treasury.Safety.{IsFresh, committed-Sound, fresh_budget, Sound-trans}
use sompi.Driver.Process.{
  Drive, read, read_capacity, transact, ask_prepare, ask_submit, ask_observe, ask,
}
use sompi.Driver.Schedule.{
  Answer, clock, preparation, submission, observation, reply, Advanced, advance, Scene, Event,
  starts, moves, others, move_at, step, play, handed_count, opened,
}
use sompi.Driver.Licences.{gain, Licensed}
use sompi.Driver.Grants.{drive-Licensed}

-- The launches in the hands of the drivers cover what each of them may still submit.
abbrev pub Covered : String → List Drive → ℕ → Type 0
Covered key [] n = Unit {0}
Covered key (d ∷ ds) n = (m l : ℕ) × (m + l ≤ n) × Licensed key m d × Covered key ds l

cover_more :
    (key : String) (ds : List Drive) (n n' : ℕ) → n ≤ n' → Covered key ds n → Covered key ds n'
cover_more key [] n n' le c = tt
cover_more key (d ∷ ds) n n' le (m, l, fits, h, c) = (m, l, le_trans fits le, h, c)

-- What a driver's move does to its licence: it pays for what it submits with what the log has gained.
record Paid (key : String) (n : ℕ) (j : Journal) (after : Advanced) : Type 0 where
  pub left : ℕ
  pub licensed : Licensed key left after.driver
  pub sound : Sound j after.journal
  pub balance :
      handed_count key after.handed + left + launches key j ≤ n + launches key after.journal

still :
    (key : String) (n : ℕ) (d : Drive) (j : Journal)
    → Licensed key n d
    → Paid key n j (record { driver = d; journal = j; handed = [] })
still key n d j h = record { left = n; licensed = h; sound = Sound-refl j; balance = omega arith }

expire-Sound : (now : ℕ) (j : Journal) → Sound j (expire_reservations now j)
expire-Sound now j =
    unchanged-Sound j (expire_reservations now j) (find-expire now j) (transitions-expire now j)

advance-Paid :
    (key : String) (a : Answer) (d : Drive) (j : Journal) (n : ℕ)
    → Licensed key n d
    → Paid key n j (advance a d j)
unfolding advance treasury_policy_capacity_used
advance-Paid key (clock seen_at now) (read next) j n h = still key n (next j) j (h j)
advance-Paid key (clock seen_at now) (read_capacity next) j n h = record {
  left = n;
  licensed = h (policy_capacity_used now none (expire_reservations now j));
  sound = expire-Sound now j;
  balance = omega (arith, (expire-Sound now j).grows key);
}
advance-Paid key (clock seen_at now) (transact c next) j n h = record {
  left = n + gain key (c seen_at now) j;
  licensed = h seen_at now j;
  sound = committed-Sound (c seen_at now) j;
  balance = omega (arith, (committed-Sound (c seen_at now) j).grows key);
}
advance-Paid key (preparation p) (ask_prepare r next) j n h = still key n (next p) j (h p)
advance-Paid key (submission s) (ask_submit k r next) j n (m, fits, h) = record {
  left = m;
  licensed = h s;
  sound = Sound-refl j;
  balance = omega (arith, fits);
}
advance-Paid key (observation p) (ask_observe r next) j n h = still key n (next p) j (h p)
advance-Paid key (reply b) (ask q next) j n h = still key n (next b) j (h b)
advance-Paid key _ d j n h = still key n d j h

-- The drivers of a scene after an event, and the scene's account of the operation.
record Kept (key : String) (n : ℕ) (handed : List String) (j : Journal) (after : Scene)
    : Type 0 where
  pub left : ℕ
  pub covered : Covered key after.drivers left
  pub sound : Sound j after.journal
  pub balance :
      handed_count key after.handed + left + launches key j
      ≤ handed_count key handed + n + launches key after.journal

move_at-Kept :
    (key : String) (i : ℕ) (a : Answer) (ds : List Drive) (j : Journal) (handed : List String)
    (n : ℕ)
    → Covered key ds n
    → Kept key n handed j (move_at i a ds j handed)
unfolding move_at
move_at-Kept key i a [] j handed n c = record {
  left = n;
  covered = tt;
  sound = Sound-refl j;
  balance = omega arith;
}
move_at-Kept key zero a (d ∷ ds) j handed n (m, l, fits, h, c) =
    let paid = advance-Paid key a d j m h in
    record {
      left = paid.left + l;
      covered = (paid.left, l, omega arith, paid.licensed, c);
      sound = paid.sound;
      balance = omega (
        arith,
        fits,
        paid.balance,
        count_by-append (λ k. str_eq k key) (advance a d j).handed handed,
      );
    }
move_at-Kept key (suc i) a (d ∷ ds) j handed n (m, l, fits, h, c) =
    let kept = move_at-Kept key i a ds j handed l c in
    record {
      left = m + kept.left;
      covered = (m, kept.left, omega arith, h, kept.covered);
      sound = kept.sound;
      balance = omega (arith, fits, kept.balance);
    }

step-Kept :
    (key : String) (e : Event) (s : Scene) (n : ℕ)
    → Covered key s.drivers n
    → Kept key n s.handed s.journal (step e s)
unfolding step
step-Kept key (starts k owner) s n c = record {
  left = n;
  covered = (0, n, omega arith, drive-Licensed key k owner, c);
  sound = Sound-refl s.journal;
  balance = omega arith;
}
step-Kept key (moves i a) s n c = move_at-Kept key i a s.drivers s.journal s.handed n c
step-Kept key (others e) s n c = record {
  left = n;
  covered = c;
  sound = committed-Sound e s.journal;
  balance = omega (arith, (committed-Sound e s.journal).grows key);
}

play-Kept :
    (key : String) (es : List Event) (s : Scene) (n : ℕ)
    → Covered key s.drivers n
    → Kept key n s.handed s.journal (play es s)
unfolding play
play-Kept key [] s n c = record {
  left = n;
  covered = c;
  sound = Sound-refl s.journal;
  balance = omega arith;
}
play-Kept key (e ∷ es) s n c =
    let first = step-Kept key e s n c in
    let rest = play-Kept key es (step e s) first.left first.covered in
    record {
      left = rest.left;
      covered = rest.covered;
      sound =
          Sound-trans s.journal (step e s).journal (play es (step e s)).journal first.sound
            rest.sound;
      balance = omega (arith, first.balance, rest.balance);
    }

-- No bytes without a launch: whatever the drivers and others do, in any order and with any answers, each
-- hand-over of an operation's bytes to `adapter.submit` has its own new launch in the Journal's log.
pub play-launched :
    (es : List Event) (j : Journal) (key : String)
    → handed_count key (play es (opened j)).handed + launches key j
      ≤ launches key (play es (opened j)).journal
play-launched es j key = omega (arith, (play-Kept key es (opened j) 0 tt).balance)

-- From a Journal without operations, any number of drivers, started by anybody at any time and interleaved
-- in any order with each other and with other calls, whatever adapters, clocks and signals answer, hand the
-- bytes of an operation to `adapter.submit` at most once between them.
pub play-submits_once :
    (es : List Event) (j : Journal) (key : String)
    → IsFresh j
    → handed_count key (play es (opened j)).handed ≤ 1
play-submits_once es j key fresh =
    let kept = play-Kept key es (opened j) 0 tt in
    omega (arith, kept.balance, kept.sound.budget key, fresh_budget key j fresh)
