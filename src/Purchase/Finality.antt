-- ===== src/Purchase/Finality.antt =====
-- src/purchase/finality.ts.
use sompi.Base.{
  ℕ, ◌≡◌, Bool, String, str_eq, if◌then◌else◌, leb, Result, ok, err, ◌>>=◌, plain, arith, Option,
  none, some, List, [], ◌∷◌, suc,
}

pub data PaymentFinality : Type 0 where
  mempool accepted confirmed : PaymentFinality

unfoldable pub finality_rank : PaymentFinality → ℕ
finality_rank mempool = 0
finality_rank accepted = 1
finality_rank confirmed = 2

unfoldable pub require_payment_finality : String → Result PaymentFinality
require_payment_finality value =
    if str_eq value "mempool"
    then ok mempool
    else if str_eq value "accepted"
    then ok accepted
    else if str_eq value "confirmed"
    then ok confirmed
    else err plain

unfoldable pub payment_finality_meets : String → String → Result Bool
unfolding finality_rank require_payment_finality
payment_finality_meets actual required = do
  actual_finality ← require_payment_finality actual
  required_finality ← require_payment_finality required
  ok (leb (finality_rank required_finality) (finality_rank actual_finality))

-- PAYMENT_FINALITIES, from the weakest to the strongest.
abbrev pub payment_finalities : List String
payment_finalities = "mempool" ∷ "accepted" ∷ "confirmed" ∷ []

-- The first place of a text in a list, from `place` on.
unfoldable pub place_of : (place : ℕ) → String → List String → Option ℕ
place_of place value [] = none
place_of place value (s ∷ ss) = if str_eq value s then some place else place_of (suc place) value ss

-- Of two texts: an Error unless both have a place, and then whether the first is not in front of the second.
abbrev pub placed : Option ℕ → Option ℕ → Result Bool
placed (some a) (some r) = ok (leb r a)
placed _ _ = err plain

-- One payment finality meets another exactly if it does not stand in front of it in PAYMENT_FINALITIES; a text
-- that the list does not have, on either side, throws.
pub payment_finality_meets-placed :
    (actual required : String)
    → payment_finality_meets actual required
      ≡ placed (place_of 0 actual payment_finalities) (place_of 0 required payment_finalities)
unfolding payment_finality_meets place_of
payment_finality_meets-placed actual required = ground arith
