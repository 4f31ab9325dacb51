-- ===== src/Examples/Decisions.antt =====
-- Lifecycles and finalities of src/purchase/ at concrete inputs.
use sompi.Base.{◌≡◌, ◌≤◌, length, refl, true, List, [], ◌∷◌, ok}
use sompi.Purchase.Lifecycle.{
  PurchaseState, created, terms_bound, awaiting_authority, authorised, execution_prepared,
  submitted, settled, receipted, terminal_purchase_state, allowed_transitions,
  assert_purchase_transition, can_transition_purchase,
}
use sompi.Purchase.History.{follow, visits, is_over, follow-over, follow-ends, follow-authorised}
use sompi.Purchase.Finality.{
  payment_finality_meets, payment_finalities, place_of, placed, payment_finality_meets-placed,
}

abbrev to_settled : List PurchaseState
to_settled =
    terms_bound ∷ awaiting_authority ∷ authorised ∷ execution_prepared ∷ submitted ∷ settled ∷ []

settles : follow created to_settled ≡ ok settled
unfolding follow assert_purchase_transition can_transition_purchase allowed_transitions
settles = refl

follow-authorised_example : visits authorised (created ∷ to_settled) ≡ true
follow-authorised_example = follow-authorised created to_settled settled refl settles refl

stays : follow receipted (receipted ∷ receipted ∷ []) ≡ ok receipted
unfolding follow assert_purchase_transition can_transition_purchase allowed_transitions
stays = refl

follow-over_example : receipted ≡ receipted
follow-over_example = follow-over receipted (receipted ∷ receipted ∷ []) receipted refl stays

follow-ends_example :
    (hs : List PurchaseState) × (last : PurchaseState) × (follow submitted hs ≡ ok last)
    × (is_over last ≡ true)
    × (length hs ≤ 2)
    × (terminal_purchase_state submitted ≡ is_over submitted)
follow-ends_example = follow-ends submitted

payment_finality_meets-placed_example :
    payment_finality_meets "confirmed" "accepted"
    ≡ placed (place_of 0 "confirmed" payment_finalities) (place_of 0 "accepted" payment_finalities)
payment_finality_meets-placed_example = payment_finality_meets-placed "confirmed" "accepted"
