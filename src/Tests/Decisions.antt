-- ===== src/Tests/Decisions.antt =====
-- The evaluator, the correlation, the engines and the integrity check at concrete inputs.
use evidence_tool.Base.{
  ◌≡◌, ◌↔◌, refl, ap, inl, inr, true, false, none, some, List, [], ◌∷◌, All, Any, Nodup, string_dec,
}
use evidence_tool.Base.Dict.{lookup, insert}
use evidence_tool.Base.Int.{pos}
use evidence_tool.Models.Evidence.{Evidence, pass, fail, unknown, ids, index_from, by_id}
use evidence_tool.Models.Policy.{Policy}
use evidence_tool.Models.Correlation.{Situation, OperationalState, situation_ids}
use evidence_tool.Models.Decision
use evidence_tool.Models.Decision.{Decision}
use evidence_tool.Evaluator.{raw_status, evaluate_observation}
use evidence_tool.Evaluator.Freshness.{IsFresh, evaluate_observation-definite_iff}
use evidence_tool.Correlation.{evaluate_situation, walk, note, scan, judge, correlate_state}
use evidence_tool.Correlation.Matching.{all_observed, Holds, matched_iff}
use evidence_tool.Engine.{
  decide_legacy, decide_v2, decide, from_state, evaluation_of, collect_blocking, conclude_legacy,
  check_blocked_v2, check_allowed_match_v2,
}
use evidence_tool.Engine.Legacy.{IsSatisfied, proceed, decide_legacy-proceeds_iff}
use evidence_tool.Engine.Situational.{occurs, any-occurs_iff, Occurs, decide_v2-proceeds_iff}
use evidence_tool.Engine.Precedence.{verdict_of, keep, escalate, with_approval, decide-approval}
use evidence_tool.Engine.Locality.{AgreeAt, decide_v2_local}
use evidence_tool.Integrity.{validate_decision_integrity}
use evidence_tool.Integrity.Identity.{AreKnown}
use evidence_tool.Integrity.Legacy.{decide_legacy_of_valid, validate-decide_legacy_iff}
use evidence_tool.Integrity.Situational.{
  AllowsState, IsAmbiguousAt, validate-allow_iff, decide_v2_reported,
}
use evidence_tool.Tests.Data.{
  needs_config, numerals, config_valid, evidence_with, restart, down, broken, catalog, situational,
  seen_down,
}

evaluate_observation-definite_example :
    ((evaluate_observation numerals config_valid (some (pos 60000000)) 2000).status ≡ pass)
    ↔ ((raw_status config_valid ≡ pass) × IsFresh config_valid (some (pos 60000000)) 2000)
evaluate_observation-definite_example =
    evaluate_observation-definite_iff numerals config_valid 2000 (some (pos 60000000)) pass cc

matched_example :
    ((evaluate_situation (by_id seen_down) down).matched ≡ true) ↔ Holds (by_id seen_down) down
matched_example = matched_iff (by_id seen_down) down

decide_legacy-proceeds_example :
    ((decide_legacy seen_down restart).status ≡ proceed restart)
    ↔ All (IsSatisfied (by_id seen_down)) restart.required_evidence
decide_legacy-proceeds_example = decide_legacy-proceeds_iff seen_down restart

unique_catalog : Nodup (situation_ids catalog)
unfolding string_dec
unique_catalog = (refl, (refl, tt))

decide_v2-proceeds_example :
    ((decide_v2 (correlate_state seen_down catalog) situational).status ≡ proceed situational) ↔ (
      (¬ Any (Occurs (by_id seen_down) catalog) situational.blocked_by)
      × Any (Occurs (by_id seen_down) catalog) situational.allow)
decide_v2-proceeds_example = decide_v2-proceeds_iff seen_down catalog unique_catalog situational

decide-approval_example :
    verdict_of keep
      (decide (from_state (correlate_state seen_down catalog)) (with_approval true situational))
    ≡ verdict_of escalate
        (decide (from_state (correlate_state seen_down catalog)) (with_approval false situational))
decide-approval_example =
    decide-approval situational (from_state (correlate_state seen_down catalog))

validate-decide_legacy_example :
    ((validate_decision_integrity (decide_legacy seen_down restart) restart seen_down none).is_valid
      ≡ true)
    ↔ (Nodup (ids seen_down)
        × AreKnown (decide_legacy seen_down restart).blocking_evidence (ids seen_down))
validate-decide_legacy_example = validate-decide_legacy_iff restart seen_down none refl

-- the decision of the V2 engine about the unit that is down
decided : (decide_v2 (correlate_state seen_down catalog) situational).status ≡ Decision.allow
unfolding decide_v2 check_blocked_v2 check_allowed_match_v2 correlate_state evaluate_situation scan
    judge walk note lookup insert index_from string_dec
decided = refl

abbrev slow : Situation
slow = record {
  id = "SLOW";
  description = "redis answers late";
  signature = ("redis.latency_ok", fail) ∷ [];
}

abbrev two_allowed : Policy
two_allowed = record situational { allow = "DOWN" ∷ "SLOW" ∷ [] }

abbrev three_situations : List Situation
three_situations = down ∷ broken ∷ slow ∷ []

-- redis could not be asked
abbrev seen_with_unknown : List Evidence
seen_with_unknown =
    evidence_with "nginx.config_valid" pass
    ∷ evidence_with "systemd.service_active" fail
    ∷ evidence_with "redis.latency_ok" unknown
    ∷ []

abbrev unclear : OperationalState
unclear = correlate_state seen_with_unknown three_situations

unique_three : Nodup (situation_ids three_situations)
unfolding string_dec
unique_three = (refl, (refl, (refl, tt)))

not_both : false ≡ true → ⊥
not_both h = cc

nothing_broken : ¬ Any (Occurs (by_id seen_with_unknown) three_situations) two_allowed.blocked_by
unfolding lookup insert index_from occurs all_observed string_dec
nothing_broken h =
    let found = (any-occurs_iff seen_with_unknown three_situations two_allowed.blocked_by).1 h in
    absurd (not_both found)

is_down : Any (Occurs (by_id seen_with_unknown) three_situations) two_allowed.allow
unfolding lookup insert index_from string_dec
is_down = inl (
    inl (
      refl,
      (
        (evidence_with "nginx.config_valid" pass, refl, refl, cc),
        ((evidence_with "systemd.service_active" fail, refl, refl, cc), tt),
      ),
    ))

slow_is_ambiguous : Any (λ id. IsAmbiguousAt (evaluation_of unclear id)) two_allowed.allow
unfolding correlate_state evaluate_situation scan judge walk note lookup insert index_from
    string_dec
slow_is_ambiguous = inr (inl refl)

decide_v2_reported_example :
    ((decide_v2 unclear two_allowed).status ≡ Decision.allow)
    × ((validate_decision_integrity
          (decide_v2 unclear two_allowed)
          two_allowed
          seen_with_unknown
          (some unclear)).is_valid
        ≡ false)
decide_v2_reported_example =
    decide_v2_reported two_allowed seen_with_unknown three_situations unique_three refl
      nothing_broken is_down slow_is_ambiguous

abbrev state_down : OperationalState
state_down = correlate_state seen_down catalog

validate-allow_example :
    ((validate_decision_integrity
        (decide_v2 state_down situational)
        situational
        seen_down
        (some state_down)).is_valid
      ≡ true)
    ↔ (Nodup (ids seen_down)
        × ((decide_v2 state_down situational).blocking_evidence ≡ [])
        × (situational.human_approval ≡ false)
        × AllowsState situational state_down)
validate-allow_example =
    validate-allow_iff situational seen_down state_down refl (decide_v2 state_down situational)
      decided

-- redis is required, and no situation of the policy names it
abbrev demanding : Policy
demanding = record situational {
  required_evidence = record needs_config { id = "redis.latency_ok" } ∷ [];
}

abbrev seen_fast : List Evidence
seen_fast = evidence_with "redis.latency_ok" pass ∷ seen_down

abbrev seen_slow : List Evidence
seen_slow = evidence_with "redis.latency_ok" fail ∷ seen_down

agree_down : All (AgreeAt seen_fast seen_slow catalog) demanding.allow
unfolding lookup index_from insert string_dec
agree_down = (((λ _. (refl, (refl, tt))), ((λ _. (refl, tt)), tt)), tt)

agree_broken : All (AgreeAt seen_fast seen_slow catalog) demanding.blocked_by
unfolding lookup index_from insert string_dec
agree_broken = (((λ _. (refl, (refl, tt))), ((λ _. (refl, tt)), tt)), tt)

decide_v2_local_example :
    decide_v2 (correlate_state seen_fast catalog) demanding
    ≡ decide_v2 (correlate_state seen_slow catalog) demanding
decide_v2_local_example =
    decide_v2_local seen_fast seen_slow catalog demanding agree_down agree_broken

allowed_despite_fail :
    (decide_v2 (correlate_state seen_slow catalog) demanding).status ≡ Decision.allow
unfolding decide_v2 check_blocked_v2 check_allowed_match_v2 correlate_state evaluate_situation scan
    judge walk note lookup insert index_from string_dec
allowed_despite_fail = refl

abbrev seen_well : List Evidence
seen_well =
    evidence_with "nginx.config_valid" pass ∷ evidence_with "systemd.service_active" pass ∷ []

decided_well : decide_legacy seen_well restart ≡ record {
  status = Decision.allow;
  reason = "All required evidence satisfied and no human approval required.";
  blocking_evidence = [];
}
unfolding decide_legacy collect_blocking conclude_legacy lookup index_from insert string_dec
decided_well = refl

well_known : AreKnown (decide_legacy seen_well restart).blocking_evidence (ids seen_well)
well_known = rw decided_well (λ a m. cc)

unique_well : Nodup (ids seen_well)
unfolding string_dec
unique_well = (refl, (refl, tt))

valid_well :
    (validate_decision_integrity (decide_legacy seen_well restart) restart seen_well none).is_valid
    ≡ true
valid_well = (validate-decide_legacy_iff restart seen_well none refl).1 (unique_well, well_known)

decide_legacy_of_valid_example : (decide_legacy seen_well restart).status ≡ Decision.allow
decide_legacy_of_valid_example =
    decide_legacy_of_valid restart seen_well none refl (decide_legacy seen_well restart)
      (ap (λ (d : Decision). d.status) decided_well) valid_well
