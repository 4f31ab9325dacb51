-- ===== src/Effects/LeaseHistory.antt =====
-- What the generations of src/purchase/journal.ts's leases guarantee over any sequence of calls.
use native.Mathlib.Nat.{le_trans}
use sompi.Base.{
  ℕ, ◌+◌, ◌<◌, ◌≤◌, ◌≡◌, refl, ap, false, String, Option, none, some, List, [], ◌∷◌, str_eq, ltb,
  find_row, replace_row, find-replace, Bool-cases, Option-cases, inl, inr, Result, ok, err, fencing,
  eq_iff, arith,
}
use sompi.Effects.Leases.{
  LeaseRow, LeaseToken, lease_name, find_lease, acquire_lease, renew_lease, release_lease,
  assert_lease, safe_expiry, grant_lease, set_expiry, lease_current,
}

pub data LeaseCall : Type 0 where
  acquire : (name holder : String) → (ttl now : ℕ) → LeaseCall
  renew : LeaseToken → (ttl now : ℕ) → LeaseCall
  release : LeaseToken → (now : ℕ) → LeaseCall

abbrev pub rows_after {ℓ} :
    {A : Type ℓ} → List LeaseRow → Result (List LeaseRow × A) → List LeaseRow
rows_after rows (ok (rows', a)) = rows'
rows_after rows (err e) = rows

unfoldable pub lease_call : LeaseCall → List LeaseRow → List LeaseRow
lease_call (acquire name holder ttl now) rows =
    rows_after rows (acquire_lease name holder ttl now rows)
lease_call (renew token ttl now) rows = rows_after rows (renew_lease token ttl now rows)
lease_call (release token now) rows = (release_lease token now rows).0

unfoldable pub lease_run : List LeaseCall → List LeaseRow → List LeaseRow
lease_run [] rows = rows
lease_run (c ∷ cs) rows = lease_run cs (lease_call c rows)

abbrev pub generation_of : Option LeaseRow → ℕ
generation_of none = 0
generation_of (some row) = row.generation

-- The generation of a name, zero before its first lease.
abbrev pub generation_at : String → List LeaseRow → ℕ
generation_at name rows = generation_of (find_lease name rows)

-- A write of a name's row.
written_generation :
    (name k : String) (row row' : LeaseRow) (rows : List LeaseRow)
    → find_lease name rows ≡ some row
    → row'.name ≡ row.name
    → row.generation ≤ row'.generation
    → generation_at k rows ≤ generation_at k (replace_row lease_name name row' rows)
unfolding find_lease
written_generation name k row row' rows found same le = elim (Bool-cases (str_eq name k)) [
  | inl here ↦
      let before : find_row lease_name k rows ≡ some row = rw (← (eq_iff name k).0 here) found in
      rw
        (
          ap generation_of (find-replace lease_name name k row row' rows found same),
          here,
          ap generation_of before,
        )
        le
  | inr other ↦
      rw (ap generation_of (find-replace lease_name name k row row' rows found same), other)
        (omega arith)
]

set_expiry-generation :
    (expires_at now : ℕ) (name k : String) (rows : List LeaseRow)
    → generation_at k rows
      ≤ generation_at k (set_expiry expires_at now name (find_lease name rows) rows)
unfolding set_expiry find_lease
set_expiry-generation expires_at now name k rows = elim (Option-cases (find_lease name rows)) [
  | inl e ↦ rw e (omega arith)
  | inr (row, e) ↦ rw e (
      written_generation name k row (record row { expires_at_ms = expires_at; updated_at_ms = now })
        rows e refl (omega arith))
]

grant_lease-generation :
    (name holder : String) (expires_at now : ℕ) (k : String) (rows : List LeaseRow)
    (o : Option LeaseRow)
    → find_lease name rows ≡ o
    → generation_at k rows ≤ generation_at k (grant_lease name holder expires_at now o rows).0
unfolding grant_lease find_lease find_row
grant_lease-generation name holder expires_at now k rows none e = ground (arith, eq_iff name k)
grant_lease-generation name holder expires_at now k rows (some row) e =
    elim (Bool-cases (ltb now row.expires_at_ms)) [
      | inl held ↦ rw held (omega arith)
      | inr free ↦ rw free (
          written_generation name k row
            (record row {
              holder = holder;
              generation = row.generation + 1;
              expires_at_ms = expires_at;
              updated_at_ms = now;
            })
            rows e refl (omega arith))
    ]

acquire_cases :
    (name holder : String) (ttl now : ℕ) (rows rows' : List LeaseRow) (t : Option LeaseToken)
    → acquire_lease name holder ttl now rows ≡ ok (rows', t)
    → (rows', t) ≡ grant_lease name holder (now + ttl) now (find_lease name rows) rows
unfolding acquire_lease safe_expiry
acquire_cases name holder ttl now rows rows' t h = ground arith

-- No call lowers the generation of a lease.
lease_call-generation :
    (c : LeaseCall) (k : String) (rows : List LeaseRow)
    → generation_at k rows ≤ generation_at k (lease_call c rows)
unfolding lease_call acquire_lease renew_lease release_lease safe_expiry
lease_call-generation (acquire name holder ttl now) k rows =
    ground (arith, grant_lease-generation name holder (now + ttl) now k rows _ refl)
lease_call-generation (renew token ttl now) k rows =
    ground (arith, set_expiry-generation (now + ttl) now token.name k rows)
lease_call-generation (release token now) k rows =
    ground (arith, set_expiry-generation now now token.name k rows)

lease_run-generation :
    (cs : List LeaseCall) (k : String) (rows : List LeaseRow)
    → generation_at k rows ≤ generation_at k (lease_run cs rows)
unfolding lease_run
lease_run-generation [] k rows = omega arith
lease_run-generation (c ∷ cs) k rows =
    le_trans (lease_call-generation c k rows) (lease_run-generation cs k (lease_call c rows))

stale_token :
    (token : LeaseToken) (now : ℕ) (rows : List LeaseRow)
    → token.generation < generation_at token.name rows
    → assert_lease token now rows ≡ err fencing
unfolding assert_lease lease_current
stale_token token now rows h = ground arith

grant_lease-granted :
    (name holder : String) (expires_at now : ℕ) (rows rows' : List LeaseRow)
    (granted old : LeaseToken) (o : Option LeaseRow)
    → find_lease name rows ≡ o
    → (rows', some granted) ≡ grant_lease name holder expires_at now o rows
    → (granted.generation ≡ generation_of o + 1)
      × (lease_current old now o ≡ false)
      × (generation_at name rows' ≡ generation_of o + 1)
unfolding grant_lease find_lease find_row lease_current
grant_lease-granted name holder expires_at now rows rows' granted old none e h =
    ground (arith, eq_iff name name)
grant_lease-granted name holder expires_at now rows rows' granted old (some row) e h =
    let renewed : LeaseRow = record row {
      holder = holder;
      generation = row.generation + 1;
      expires_at_ms = expires_at;
      updated_at_ms = now;
    } in
    ground (arith, eq_iff name name, find-replace lease_name name name row renewed rows e refl)

-- A lease that is granted ends every earlier one: nobody held the name at that moment, and from there on, after
-- any further calls and at any time, each token of an earlier generation is refused.
pub acquire_lease-fences :
    (name holder : String) (ttl now : ℕ) (rows rows' : List LeaseRow) (granted old : LeaseToken)
    (cs : List LeaseCall) (later : ℕ)
    → acquire_lease name holder ttl now rows ≡ ok (rows', some granted)
    → old.name ≡ name
    → old.generation ≤ generation_at name rows
    → (lease_current old now (find_lease name rows) ≡ false)
      × (granted.generation ≡ generation_at name rows + 1)
      × (assert_lease old later (lease_run cs rows') ≡ err fencing)
acquire_lease-fences name holder ttl now rows rows' granted old cs later h same issued =
    let (e, free, next) =
      grant_lease-granted name holder (now + ttl) now rows rows' granted old (find_lease name rows)
        refl (acquire_cases name holder ttl now rows rows' (some granted) h) in
    let passed : old.generation < generation_at old.name (lease_run cs rows') =
      rw same (omega (arith, issued, next, lease_run-generation cs name rows')) in
    (free, e, stale_token old later (lease_run cs rows') passed)
