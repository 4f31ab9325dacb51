-- ===== src/Base/Outcome.antt =====
-- Thrown errors as values. The constructors are the error classes of src/journal/contracts.ts and
-- src/treasury/operation-journal.ts, the one that SQLite raises and `Error` itself (`plain`); messages are left out.
use mathlib.Core.Path.{◌≡◌, refl}
use mathlib.Core.Bool.{Bool, true, false}
use mathlib.Core.Option.{Option, none, some}

pub data Error : Type 0 where
  invariant : Error
  not_found : Error
  request_conflict : Error
  fencing : Error
  effect_busy : Error
  policy_reservation : Error
  sqlite_constraint : Error
  plain : Error

-- What a call returns, or the error that it throws.
pub data Result {ℓ} (T : Type ℓ) : Type ℓ where
  err : (thrown : Error) → Result T
  ok : (value : T) → Result T

-- `if (!test) throw new SomeError(...)`.
abbrev pub require : Bool → Error → Result (Unit {0})
require false thrown = err thrown
require true thrown = ok tt

-- `const value = find(...); if (!value) throw ...`.
abbrev pub or_throw {ℓ} : {T : Type ℓ} → Option T → Error → Result T
or_throw (some value) thrown = ok value
or_throw none thrown = err thrown

infixl 5 ◌>>=◌
abbrev pub ◌>>=◌ {ℓ κ} : {S : Type ℓ} {T : Type κ} → Result S → (S → Result T) → Result T
err thrown >>= next = err thrown
ok value >>= next = next value

infixl 5 ◌>>◌
abbrev pub ◌>>◌ {ℓ} : {T : Type ℓ} → Result (Unit {0}) → Result T → Result T
check >> rest = check >>= λ _. rest

-- A sequence that does not throw has a first step that does not.
pub >>=-eq-ok {ℓ κ} :
    {S : Type ℓ} {T : Type κ} (first : Result S) (next : S → Result T) {last : T}
    → (first >>= next) ≡ ok last
    → (value : S) × (first ≡ ok value) × (next value ≡ ok last)
>>=-eq-ok (err thrown) next h = cc
>>=-eq-ok (ok value) next h = (value, refl, h)
