-- ===== src/Effects/Leases.antt =====
-- acquireLease, renewLease, releaseLease and assertLeaseInternal of src/purchase/journal.ts.
use sompi.Base.{
  ℕ, ◌+◌, Bool, true, false, ◌&&◌, String, Option, none, some, List, ◌∷◌, leb, ltb, ◌==◌, str_eq,
  if◌then◌else◌, find_row, replace_row, Result, ok, err, ◌>>=◌, ◌>>◌, require, invariant, fencing,
  is_safe_identity,
}

pub record LeaseRow : Type 0 where
  pub name : String
  pub holder : String
  pub generation : ℕ
  pub expires_at_ms : ℕ
  pub updated_at_ms : ℕ

pub record LeaseToken : Type 0 where
  pub name : String
  pub holder : String
  pub generation : ℕ
  pub expires_at_ms : ℕ

abbrev pub lease_name : LeaseRow → String
lease_name l = l.name

unfoldable pub find_lease : String → List LeaseRow → Option LeaseRow
unfolding find_row
find_lease name rows = find_row lease_name name rows

-- Number.MAX_SAFE_INTEGER.
abbrev pub max_safe_integer : ℕ
max_safe_integer = 9007199254740991

-- validateLeaseFields.
unfoldable pub validate_lease_fields : String → String → ℕ → Result (Unit {0})
validate_lease_fields name holder ttl = do
  require (is_safe_identity name 300) invariant
  require (is_safe_identity holder 200) invariant
  require (leb ttl max_safe_integer && ltb 0 ttl) invariant

-- safeExpiry.
unfoldable pub safe_expiry : ℕ → ℕ → Result ℕ
safe_expiry now ttl = if leb (now + ttl) max_safe_integer then ok (now + ttl) else err invariant

-- The lease of a name that is free or has run out, under its next generation.
unfoldable pub grant_lease :
    String
    → String
    → (expires_at now : ℕ) → Option LeaseRow
    → List LeaseRow
    → List LeaseRow × Option LeaseToken
grant_lease name holder expires_at now none rows = (
  record {
    name = name;
    holder = holder;
    generation = 1;
    expires_at_ms = expires_at;
    updated_at_ms = now;
  }
      ∷ rows,
  some (record { name = name; holder = holder; generation = 1; expires_at_ms = expires_at }),
)
grant_lease name holder expires_at now (some row) rows =
    if ltb now row.expires_at_ms then (rows, none) else (
      replace_row lease_name name
          (record row {
            holder = holder;
            generation = row.generation + 1;
            expires_at_ms = expires_at;
            updated_at_ms = now;
          })
          rows,
      some (record {
        name = name;
        holder = holder;
        generation = row.generation + 1;
        expires_at_ms = expires_at;
      }),
    )

-- acquireLeaseInternal: `none` where the lease is held.
unfoldable pub acquire_lease :
    String → String → (ttl now : ℕ) → List LeaseRow → Result (List LeaseRow × Option LeaseToken)
acquire_lease name holder ttl now rows = do
  validate_lease_fields name holder ttl
  expires_at ← safe_expiry now ttl
  ok (grant_lease name holder expires_at now (find_lease name rows) rows)

-- The row test of assertLeaseInternal, and of the WHERE clauses of renewLease and releaseLease.
unfoldable pub lease_current : LeaseToken → ℕ → Option LeaseRow → Bool
lease_current token now none = false
lease_current token now (some row) =
    str_eq row.holder token.holder
    && row.generation == token.generation
    && ltb now row.expires_at_ms

-- assertLeaseInternal.
unfoldable pub assert_lease : LeaseToken → ℕ → List LeaseRow → Result (Unit {0})
assert_lease token now rows = require (lease_current token now (find_lease token.name rows)) fencing

unfoldable pub set_expiry :
    (expires_at now : ℕ) → String → Option LeaseRow → List LeaseRow → List LeaseRow
set_expiry expires_at now name none rows = rows
set_expiry expires_at now name (some row) rows =
    replace_row lease_name name (record row { expires_at_ms = expires_at; updated_at_ms = now })
      rows

unfoldable pub renew_lease :
    LeaseToken → (ttl now : ℕ) → List LeaseRow → Result (List LeaseRow × LeaseToken)
renew_lease token ttl now rows = do
  validate_lease_fields token.name token.holder ttl
  assert_lease token now rows
  expires_at ← safe_expiry now ttl
  ok (
    set_expiry expires_at now token.name (find_lease token.name rows) rows,
    record token { expires_at_ms = expires_at },
  )

-- releaseLease: a stale token changes nothing and answers `false`.
unfoldable pub release_lease : LeaseToken → ℕ → List LeaseRow → List LeaseRow × Bool
release_lease token now rows =
    if lease_current token now (find_lease token.name rows)
    then (set_expiry now now token.name (find_lease token.name rows) rows, true)
    else (rows, false)
