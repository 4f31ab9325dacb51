-- ===== src/Purchase/History.antt =====
-- What a sequence of accepted Purchase transitions guarantees (src/purchase/state-machine.ts).
use sompi.Base.{
  ◌≡◌, ◌∙◌, ◌⊎◌, refl, ◌≤◌, length, inl, inr, Bool, true, false, List, [], ◌∷◌, Result, ok, ◌>>◌,
  arith, any_by,
}
use sompi.Purchase.Lifecycle.{
  PurchaseState, created, terms_bound, awaiting_authority, denied, cancelled, expired, authorised,
  execution_prepared, submitted, settled, fulfilled, receipted, failed_recoverable, failed_terminal,
  same_state, assert_purchase_transition, can_transition_purchase, terminal_purchase_state,
  rank-injective,
}

-- A Purchase driven through a list of target states, each asserted as the Journal does.
unfoldable pub follow : PurchaseState → List PurchaseState → Result PurchaseState
follow from [] = ok from
follow from (to ∷ rest) = do assert_purchase_transition from to; follow to rest

-- The states that lie behind a decision of the owner to pay.
abbrev pub past_authority : PurchaseState → Bool
past_authority execution_prepared = true
past_authority submitted = true
past_authority settled = true
past_authority fulfilled = true
past_authority receipted = true
past_authority failed_recoverable = true
past_authority failed_terminal = true
past_authority _ = false

abbrev pub visits : PurchaseState → List PurchaseState → Bool
visits s hs = any_by (λ x. same_state x s) hs

follow_step :
    (from to : PurchaseState) (hs : List PurchaseState) {last : PurchaseState}
    → follow from (to ∷ hs) ≡ ok last
    → (can_transition_purchase from to ≡ true) × (follow to hs ≡ ok last)
unfolding follow assert_purchase_transition
follow_step from to hs h = ground arith

-- The states in which a Purchase is over: its receipt is recorded, the owner refused it, it was withdrawn, its
-- time ran out, or it failed for good.
abbrev pub is_over : PurchaseState → Bool
is_over receipted = true
is_over denied = true
is_over cancelled = true
is_over expired = true
is_over failed_terminal = true
is_over _ = false

over_step :
    (from to : PurchaseState)
    → is_over from ≡ true
    → can_transition_purchase from to ≡ true
    → to ≡ from
unfolding can_transition_purchase
over_step from to t h = rank-injective to from (ground arith)

-- A Purchase that is receipted, denied, cancelled, expired or failed for good stays as it is: every accepted
-- history from such a state ends in it.
pub follow-over :
    (from : PurchaseState) (hs : List PurchaseState) (last : PurchaseState)
    → is_over from ≡ true
    → follow from hs ≡ ok last
    → last ≡ from
unfolding follow
follow-over from [] last t h = ground arith
follow-over from (to ∷ hs) last t h =
    let (accepted, rest) = follow_step from to hs h in
    let same = over_step from to t accepted in follow-over to hs last (rw same t) rest ∙ same

-- From every state an accepted history of at most two transitions ends a Purchase, and it is over exactly where
-- `terminalPurchaseState` says so.
pub follow-ends :
    (from : PurchaseState)
    → (hs : List PurchaseState) × (last : PurchaseState) × (follow from hs ≡ ok last)
      × (is_over last ≡ true)
      × (length hs ≤ 2)
      × (terminal_purchase_state from ≡ is_over from)
unfolding follow assert_purchase_transition can_transition_purchase terminal_purchase_state
follow-ends created = (cancelled ∷ [], cancelled, refl, refl, omega arith, refl)
follow-ends terms_bound = (cancelled ∷ [], cancelled, refl, refl, omega arith, refl)
follow-ends awaiting_authority = (cancelled ∷ [], cancelled, refl, refl, omega arith, refl)
follow-ends authorised = (cancelled ∷ [], cancelled, refl, refl, omega arith, refl)
follow-ends execution_prepared = (cancelled ∷ [], cancelled, refl, refl, omega arith, refl)
follow-ends submitted =
    (failed_recoverable ∷ failed_terminal ∷ [], failed_terminal, refl, refl, omega arith, refl)
follow-ends settled = (fulfilled ∷ receipted ∷ [], receipted, refl, refl, omega arith, refl)
follow-ends fulfilled = (receipted ∷ [], receipted, refl, refl, omega arith, refl)
follow-ends receipted = ([], receipted, refl, refl, omega arith, refl)
follow-ends denied = ([], denied, refl, refl, omega arith, refl)
follow-ends cancelled = ([], cancelled, refl, refl, omega arith, refl)
follow-ends expired = ([], expired, refl, refl, omega arith, refl)
follow-ends failed_recoverable =
    (failed_terminal ∷ [], failed_terminal, refl, refl, omega arith, refl)
follow-ends failed_terminal = ([], failed_terminal, refl, refl, omega arith, refl)

authority_step :
    (from to : PurchaseState)
    → past_authority from ≡ false
    → can_transition_purchase from to ≡ true
    → (same_state from authorised ≡ true) ⊎ (past_authority to ≡ false)
unfolding can_transition_purchase
authority_step from to p h = ground arith

-- No accepted history brings a Purchase from a state before the owner's decision to a state of
-- execution, settlement or failure unless it visits `authorised`.
pub follow-authorised :
    (from : PurchaseState) (hs : List PurchaseState) (last : PurchaseState)
    → past_authority from ≡ false
    → follow from hs ≡ ok last
    → past_authority last ≡ true
    → visits authorised (from ∷ hs) ≡ true
follow-authorised from [] last p h q = unfold follow in ground arith
follow-authorised from (to ∷ hs) last p h q =
    let (accepted, rest) = follow_step from to hs h in
    elim (authority_step from to p accepted) [
      | inl here ↦ ground arith
      | inr before ↦ ground (arith, follow-authorised to hs last before rest q)
    ]
