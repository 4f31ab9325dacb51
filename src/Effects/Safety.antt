-- ===== src/Effects/Safety.antt =====
-- What the Journal's Effects guarantee over any sequence of calls (src/purchase/journal.ts).
use sompi.Base.{
  ℕ, ◌+◌, ◌≤◌, ◌≡◌, refl, ◌∙◌, ap, String, Option, none, some, List, [], ◌∷◌, str_eq, if◌then◌else◌,
  sum_by, sum_by-append, find_row, replace_row, find-replace, Bool-cases, inl, inr, eq_iff, arith,
}
use sompi.Effects.States.{EffectState, planned, executing, retryable, Effect}
use sompi.Effects.Store.{Store, EffectTransition, effect_id, write_effect, transition_row}

-- The states from which an Effect may be claimed for execution.
abbrev pub open_state : EffectState → ℕ
open_state planned = 1
open_state retryable = 1
open_state _ = 0

abbrev pub is_executing : EffectState → ℕ
is_executing executing = 1
is_executing _ = 0

abbrev pub is_retryable : EffectState → ℕ
is_retryable retryable = 1
is_retryable _ = 0

-- The claims and the proven absences of an Effect, as the transition log has them.
unfoldable pub claim_of : String → EffectTransition → ℕ
claim_of id t = if str_eq t.effect_id id then is_executing t.to_state else 0

unfoldable pub absence_of : String → EffectTransition → ℕ
absence_of id t = if str_eq t.effect_id id then is_retryable t.to_state else 0

unfoldable pub claims : String → Store → ℕ
claims id s = sum_by (claim_of id) s.transitions

unfoldable pub absences : String → Store → ℕ
absences id s = sum_by (absence_of id) s.transitions

abbrev pub open_of : Option Effect → ℕ
open_of none = 1
open_of (some e) = open_state e.state

abbrev pub open_at : String → List Effect → ℕ
open_at id es = open_of (find_row effect_id id es)

-- A step uses up a claim, or a proven absence has given one back.
abbrev pub Balanced : Store → Store → Type 0
Balanced s s' =
    (id : String)
    → claims id s' + open_at id s'.effects + absences id s
      ≤ claims id s + open_at id s.effects + absences id s'

-- What the write of a row may do to the balance.
abbrev pub Pays : Effect → Effect → Type 0
Pays e e' =
    (e'.id ≡ e.id)
    × (is_executing e'.state + open_state e'.state ≤ open_state e.state + is_retryable e'.state)

log-write :
    (id : String) (e e' : Effect) (reason : String) (detail : Option String) (now : ℕ) (s : Store)
    → (claims id (write_effect e e' reason detail now s)
        ≡ claims id s + (if str_eq e.id id then is_executing e'.state else 0))
      × (absences id (write_effect e e' reason detail now s)
          ≡ absences id s + (if str_eq e.id id then is_retryable e'.state else 0))
unfolding claims absences write_effect claim_of absence_of
log-write id e e' reason detail now s = (
  sum_by-append (claim_of id) s.transitions
        (transition_row e.id (some e.state) e'.state reason detail now ∷ [])
      ∙ omega arith,
  sum_by-append (absence_of id) s.transitions
        (transition_row e.id (some e.state) e'.state reason detail now ∷ [])
      ∙ omega arith,
)

effects-write :
    (e e' : Effect) (reason : String) (detail : Option String) (now : ℕ) (s : Store)
    → (write_effect e e' reason detail now s).effects ≡ replace_row effect_id e.id e' s.effects
unfolding write_effect
effects-write e e' reason detail now s = refl

pub write-Balanced :
    (e e' : Effect) (reason : String) (detail : Option String) (now : ℕ) (s : Store)
    → find_row effect_id e.id s.effects ≡ some e
    → Pays e e'
    → Balanced s (write_effect e e' reason detail now s)
write-Balanced e e' reason detail now s found (same, pays) id =
    let (c, a) = log-write id e e' reason detail now s in
    let after = find-replace effect_id e.id id e e' s.effects found same in
    elim (Bool-cases (str_eq e.id id)) [
      | inl here ↦
          let before : find_row effect_id id s.effects ≡ some e =
            rw (← (eq_iff e.id id).0 here) found in
          rw
            (
              c,
              a,
              effects-write e e' reason detail now s,
              ap open_of after,
              here,
              ap open_of before,
            )
            (omega arith)
      | inr other ↦
          rw (c, a, effects-write e e' reason detail now s, ap open_of after, other) (omega arith)
    ]
