-- ===== src/Engine/Legacy.antt =====
-- What a V1 policy decides.
use mathlib.Core.List.{append-nil, append_assoc}
use evidence_tool.Base.{
  String, ◌≡◌, ◌≢◌, ◌↔◌, ◌⊎◌, ◌∙◌, refl, true, false, Option, none, some, List, [], ◌∷◌, ◌++◌,
  arith, if◌then◌else◌, All, Any, contains,
}
use evidence_tool.Base.Dict.{Dict, lookup}
use evidence_tool.Models.Evidence.{pass, unknown, Evidence, by_id}
use evidence_tool.Models.Policy.{EvidenceRequirement, Policy, ignore}
use evidence_tool.Models.Decision
use evidence_tool.Models.Decision.{Decision, DecisionStatus}
use evidence_tool.Engine.{is_blocking, collect_blocking, conclude_legacy, decide_legacy}

-- The evidence found for the requirement is PASS, or it is UNKNOWN or missing and the requirement
-- ignores that.
abbrev pub SatisfiedBy : EvidenceRequirement → Option Evidence → Type 0
SatisfiedBy req none = req.on_unknown ≡ ignore
SatisfiedBy req (some e) = (e.status ≡ pass) ⊎ ((e.status ≡ unknown) × (req.on_unknown ≡ ignore))

abbrev pub IsSatisfied : Dict Evidence → EvidenceRequirement → Type 0
IsSatisfied evidence req = SatisfiedBy req (lookup req.id evidence)

-- the status when nothing blocks
abbrev pub proceed : Policy → DecisionStatus
proceed policy = if policy.human_approval then Decision.human_review else Decision.allow

unfoldable pub blocking_ids : Dict Evidence → List EvidenceRequirement → List String
blocking_ids evidence [] = []
blocking_ids evidence (req ∷ rest) =
    let later = blocking_ids evidence rest in
    if is_blocking req (lookup req.id evidence) then req.id ∷ later else later

pub collect_blocking-eq :
    (evidence : Dict Evidence) (reqs : List EvidenceRequirement) (acc : List String)
    → collect_blocking evidence reqs acc ≡ acc ++ blocking_ids evidence reqs
unfolding collect_blocking blocking_ids
collect_blocking-eq evidence [] acc = rw append-nil
collect_blocking-eq evidence (req ∷ rest) acc = ground (
  arith,
  collect_blocking-eq evidence rest (acc ++ req.id ∷ []),
  collect_blocking-eq evidence rest acc,
  append_assoc acc (req.id ∷ []) (blocking_ids evidence rest),
)

is_blocking_iff :
    (req : EvidenceRequirement) (found : Option Evidence)
    → (is_blocking req found ≡ false) ↔ SatisfiedBy req found
is_blocking_iff req none = ground arith
is_blocking_iff req (some e) = ground arith

blocking_ids-nil_iff :
    (evidence : Dict Evidence) (reqs : List EvidenceRequirement)
    → (blocking_ids evidence reqs ≡ []) ↔ All (IsSatisfied evidence) reqs
unfolding blocking_ids
blocking_ids-nil_iff evidence [] = (λ h. tt, λ h. refl)
blocking_ids-nil_iff evidence (req ∷ rest) =
    ground (arith, blocking_ids-nil_iff evidence rest, is_blocking_iff req (lookup req.id evidence))

status-conclude_legacy :
    (policy : Policy) (blocking : List String)
    → ((conclude_legacy policy blocking).status ≡ proceed policy) ↔ (blocking ≡ [])
unfolding conclude_legacy
status-conclude_legacy policy [] = ground arith
status-conclude_legacy policy (a ∷ []) = ground arith
status-conclude_legacy policy (a ∷ b ∷ rest) = ground arith

blocking_evidence-conclude_legacy :
    (policy : Policy) (blocking : List String)
    → (conclude_legacy policy blocking).blocking_evidence ≡ blocking
unfolding conclude_legacy
blocking_evidence-conclude_legacy policy [] = ground arith
blocking_evidence-conclude_legacy policy (a ∷ []) = refl
blocking_evidence-conclude_legacy policy (a ∷ b ∷ rest) = refl

module _ (evidence : List Evidence) (policy : Policy) where
  pub blocking_evidence-decide_legacy :
      (decide_legacy evidence policy).blocking_evidence
      ≡ blocking_ids (by_id evidence) policy.required_evidence
  unfolding decide_legacy
  blocking_evidence-decide_legacy =
      blocking_evidence-conclude_legacy policy _
      ∙ collect_blocking-eq (by_id evidence) policy.required_evidence []

  -- A V1 decision is ALLOW, or HUMAN_REVIEW where the policy asks for approval, exactly when the
  -- evidence for every requirement is PASS, or is UNKNOWN or missing and the requirement ignores
  -- that.
  pub decide_legacy-proceeds_iff :
      ((decide_legacy evidence policy).status ≡ proceed policy)
      ↔ All (IsSatisfied (by_id evidence)) policy.required_evidence
  unfolding decide_legacy
  decide_legacy-proceeds_iff = ground (
    arith,
    collect_blocking-eq (by_id evidence) policy.required_evidence [],
    status-conclude_legacy policy (blocking_ids (by_id evidence) policy.required_evidence),
    blocking_ids-nil_iff (by_id evidence) policy.required_evidence,
  )

  pub decide_legacy-cases :
      ((decide_legacy evidence policy).status ≡ Decision.block)
      ⊎ ((decide_legacy evidence policy).status ≡ proceed policy)
  unfolding decide_legacy
  decide_legacy-cases = go (collect_blocking (by_id evidence) policy.required_evidence [])
    where
      go :
          (blocking : List String)
          → ((conclude_legacy policy blocking).status ≡ Decision.block)
            ⊎ ((conclude_legacy policy blocking).status ≡ proceed policy)
      go [] = ground arith
      go (a ∷ []) = ground arith
      go (a ∷ b ∷ rest) = ground arith

  -- A V1 decision is BLOCK exactly when it names blocking evidence.
  pub decide_legacy-blocks_iff :
      ((decide_legacy evidence policy).status ≡ Decision.block)
      ↔ ((decide_legacy evidence policy).blocking_evidence ≢ [])
  unfolding decide_legacy
  decide_legacy-blocks_iff = go (collect_blocking (by_id evidence) policy.required_evidence [])
    where
      go :
          (blocking : List String)
          → ((conclude_legacy policy blocking).status ≡ Decision.block)
            ↔ ((conclude_legacy policy blocking).blocking_evidence ≢ [])
      go [] = ground arith
      go (a ∷ []) = ground arith
      go (a ∷ b ∷ rest) = ground arith

-- some requirement of this id is not satisfied
abbrev pub IsUnsatisfied : Dict Evidence → String → EvidenceRequirement → Type 0
IsUnsatisfied evidence id req = (id ≡ req.id) × (¬ IsSatisfied evidence req)

contains-blocking_ids :
    (evidence : Dict Evidence) (id : String) (reqs : List EvidenceRequirement)
    → (contains (blocking_ids evidence reqs) id ≡ true) ↔ Any (IsUnsatisfied evidence id) reqs
unfolding blocking_ids
contains-blocking_ids evidence id [] = (λ h. cc, λ h. absurd h)
contains-blocking_ids evidence id (req ∷ rest) =
    ground
      (arith, contains-blocking_ids evidence id rest, is_blocking_iff req (lookup req.id evidence))

-- An id is in the blocking evidence of a V1 decision exactly when a requirement of that id is not
-- satisfied.
pub contains-blocking_evidence_legacy :
    (evidence : List Evidence) (policy : Policy) (id : String)
    → (contains (decide_legacy evidence policy).blocking_evidence id ≡ true)
      ↔ Any (IsUnsatisfied (by_id evidence) id) policy.required_evidence
contains-blocking_evidence_legacy evidence policy id =
    rw (blocking_evidence-decide_legacy evidence policy)
      (contains-blocking_ids (by_id evidence) id policy.required_evidence)
