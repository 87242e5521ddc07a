-- ===== src/Engine/Situational.antt =====
-- What a V2 policy decides on the state that is correlated from evidence and a catalog.
use evidence_tool.Base.{
  inl, inr, Bool-cases, ap, String, ◌≡◌, ◌↔◌, ◌∙◌, refl, Bool, true, false, ◌&&◌, none, List, [],
  ◌∷◌, arith, ◌==◌, if◌then◌else◌, Any, any, contains, filter, map, Nodup, find_first,
}
use evidence_tool.Base.Dict.{Dict}
use evidence_tool.Models.Evidence.{Evidence, by_id}
use evidence_tool.Models.Policy.{Policy}
use evidence_tool.Models.Correlation.{Situation, OperationalState, situation_ids}
use evidence_tool.Models.Decision.{Decision, block}
use evidence_tool.Correlation.{evaluate_situation, correlate_state}
use evidence_tool.Correlation.Ambiguity.{matched-empty_iff}
use evidence_tool.Correlation.Matching.{
  Holds, all_observed, all_observed_iff, matched-evaluate_situation, situation-evaluate_situation,
  situations-correlate_state, evaluations-correlate_state,
}
use evidence_tool.Engine.{
  is_active, is_clear, evaluation_of, check_blocked_v2, check_allowed_match_v2, check_unresolved_v2,
  no_match_v2, or_else_decide, decide_v2,
}
use evidence_tool.Engine.Legacy.{proceed}

-- a situation of the catalog with this id whose signature the evidence matches
abbrev pub Occurs : Dict Evidence → List Situation → String → Type 0
Occurs evidence catalog id = Any (λ s. (id ≡ s.id) × Holds evidence s) catalog

module _ (evidence : Dict Evidence) where
  unfoldable pub occurs : List Situation → String → Bool
  occurs catalog id = any (λ s. id == s.id && all_observed evidence s.signature) catalog

  occurs_iff :
      (catalog : List Situation) (id : String)
      → (occurs catalog id ≡ true) ↔ Occurs evidence catalog id
  unfolding occurs
  occurs_iff [] id = (λ h. cc, λ h. absurd h)
  occurs_iff (s ∷ catalog) id =
      ground (arith, occurs_iff catalog id, all_observed_iff evidence s.signature)

  occurs_listed :
      (catalog : List Situation) (id : String)
      → occurs catalog id ≡ true
      → contains (situation_ids catalog) id ≡ true
  unfolding occurs
  occurs_listed [] id h = cc
  occurs_listed (s ∷ catalog) id h = ground (arith, occurs_listed catalog id)

  contains-situation_ids :
      (catalog : List Situation) (id : String)
      → contains (situation_ids (filter (λ s. all_observed evidence s.signature) catalog)) id
        ≡ occurs catalog id
  unfolding occurs
  contains-situation_ids [] id = refl
  contains-situation_ids (s ∷ catalog) id = ground (arith, contains-situation_ids catalog id)

  -- in a catalog without repeated ids a situation that occurs is evaluated without ambiguity
  is_clear_of_occurs :
      (catalog : List Situation) (id : String)
      → Nodup (situation_ids catalog)
      → occurs catalog id ≡ true
      → is_clear
          (find_first (λ ev. ev.situation.id == id) (map (evaluate_situation evidence) catalog))
        ≡ true
  unfolding occurs
  is_clear_of_occurs [] id u h = cc
  is_clear_of_occurs (s ∷ catalog) id u h = ground (
    arith,
    is_clear_of_occurs catalog id u.1,
    situation-evaluate_situation evidence s,
    matched-evaluate_situation evidence s,
    matched-empty_iff evidence s,
    occurs_listed catalog id,
  )

check_blocked_v2-none :
    (state : OperationalState) (ids : List String)
    → any (is_active state) ids ≡ false
    → check_blocked_v2 state ids ≡ none
unfolding check_blocked_v2
check_blocked_v2-none state [] h = refl
check_blocked_v2-none state (id ∷ ids) h = ground (arith, check_blocked_v2-none state ids)

check_blocked_v2-some :
    (state : OperationalState) (ids : List String) (d : Decision)
    → any (is_active state) ids ≡ true
    → (or_else_decide (check_blocked_v2 state ids) d).status ≡ block
unfolding check_blocked_v2
check_blocked_v2-some state [] d h = cc
check_blocked_v2-some state (id ∷ ids) d h = ground (arith, check_blocked_v2-some state ids d)

-- an allowed situation that is active and evaluated without ambiguity
authorises : OperationalState → String → Bool
authorises state id = is_active state id && is_clear (evaluation_of state id)

status-check_allowed :
    (state : OperationalState) (policy : Policy) (ids : List String) (d : Decision)
    → (or_else_decide (check_allowed_match_v2 state policy ids) d).status
      ≡ (if any (authorises state) ids then proceed policy else d.status)
unfolding check_allowed_match_v2 authorises
status-check_allowed state policy [] d = refl
status-check_allowed state policy (id ∷ ids) d =
    ground (arith, status-check_allowed state policy ids d)

status-check_unresolved :
    (state : OperationalState) (policy : Policy) (ids : List String)
    → (or_else_decide (check_unresolved_v2 state ids) (no_match_v2 state policy)).status ≡ block
unfolding check_unresolved_v2 no_match_v2
status-check_unresolved state policy [] = refl
status-check_unresolved state policy (id ∷ ids) =
    ground (arith, status-check_unresolved state policy ids)

-- the steps of `decide_v2`, as far as the status goes
status-decide_v2 :
    (state : OperationalState) (policy : Policy)
    → (decide_v2 state policy).status ≡ (
        if any (is_active state) policy.blocked_by
        then block
        else if any (authorises state) policy.allow
        then proceed policy
        else block)
status-decide_v2 state policy = elim (Bool-cases (any (is_active state) policy.blocked_by)) [
  | inl hit ↦ rw hit (unfold decide_v2 in check_blocked_v2-some state policy.blocked_by _ hit)
  | inr clear ↦ rw clear (
      unfold decide_v2 in
      rw (check_blocked_v2-none state policy.blocked_by clear) (
        status-check_allowed state policy policy.allow _
        ∙ ap (λ st. if any (authorises state) policy.allow then proceed policy else st)
            (status-check_unresolved state policy policy.allow)))
]

module _ (evidence : List Evidence) (catalog : List Situation) where
  abbrev state : OperationalState
  state = correlate_state evidence catalog

  is_active-correlate_state :
      (id : String) → is_active state id ≡ occurs (by_id evidence) catalog id
  is_active-correlate_state id =
      rw (situations-correlate_state evidence catalog)
        (contains-situation_ids (by_id evidence) catalog id)

  any_active :
      (ids : List String) → any (is_active state) ids ≡ any (occurs (by_id evidence) catalog) ids
  any_active [] = refl
  any_active (id ∷ ids) = rw (is_active-correlate_state id, any_active ids)

  pub any-occurs_iff :
      (ids : List String)
      → (any (occurs (by_id evidence) catalog) ids ≡ true)
        ↔ Any (Occurs (by_id evidence) catalog) ids
  any-occurs_iff [] = (λ h. cc, λ h. absurd h)
  any-occurs_iff (id ∷ ids) =
      ground (arith, any-occurs_iff ids, occurs_iff (by_id evidence) catalog id)

  module _ (unique : Nodup (situation_ids catalog)) where
    authorises-correlate_state :
        (id : String) → authorises state id ≡ occurs (by_id evidence) catalog id
    unfolding authorises
    authorises-correlate_state id =
        rw (is_active-correlate_state id, evaluations-correlate_state evidence catalog)
          (ground (arith, is_clear_of_occurs (by_id evidence) catalog id unique))

    any-authorises :
        (ids : List String) → any (authorises state) ids ≡ any (occurs (by_id evidence) catalog) ids
    any-authorises [] = refl
    any-authorises (id ∷ ids) = rw (authorises-correlate_state id, any-authorises ids)

    -- Over a catalog without repeated ids, a V2 decision is ALLOW, or HUMAN_REVIEW where the policy
    -- asks for approval, exactly when the evidence matches the signature of an allowed situation
    -- and of no situation that blocks. So the evidence that the policy requires has no part in it,
    -- nor has an ambiguity of the state, unlike in sections 5.1, 13.2 and 14.3 of
    -- PRODUCT_CONTRACT.md.
    pub decide_v2-proceeds_iff :
        (policy : Policy)
        → ((decide_v2 state policy).status ≡ proceed policy) ↔ (
            (¬ Any (Occurs (by_id evidence) catalog) policy.blocked_by)
            × Any (Occurs (by_id evidence) catalog) policy.allow)
    decide_v2-proceeds_iff policy =
        rw
          (status-decide_v2 state policy, any_active policy.blocked_by, any-authorises policy.allow)
          (ground (arith, any-occurs_iff policy.blocked_by, any-occurs_iff policy.allow))
