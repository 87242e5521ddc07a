-- ===== src/Recommendation.antt =====
-- recommendation.py: advice on a decision.
use evidence_tool.Base.{String, ◌<>◌, Option, none, some, List, [], ◌∷◌, join}
use evidence_tool.Base.Dict.{Dict, lookup}
use evidence_tool.Models.Decision.{Decision, DecisionStatus, allow, block, human_review}

abbrev pub known_remediations : Dict String
known_remediations =
    (
      "nginx.config_valid",
      "Run `nginx -t` locally to see the exact syntax error, then fix nginx.conf before retrying.",
    )
    ∷ (
      "nginx.config_exists",
      "Restore or recreate the nginx configuration file at the expected path.",
    )
    ∷ (
      "tls.certificate_exists",
      "Provision or restore the missing TLS certificate (e.g. re-run certbot).",
    )
    ∷ ("tls.certificate_valid", "Renew the certificate — it is expired, malformed, or unparseable.")
    ∷ (
      "tls.private_key_exists",
      "Restore the missing private key, or reissue the certificate/key pair.",
    )
    ∷ ("systemd.service_exists", "Verify the systemd unit file is installed and named correctly.")
    ∷ (
      "systemd.service_active",
      "Inspect `journalctl -u <service>` to see why the service isn't active.",
    )
    ∷ ("filesystem.disk_space_available", "Free up disk space before attempting the action.")
    ∷ []

-- `_KNOWN_REMEDIATIONS.get(evidence_id, ...)`
tip_of : String → Option String → String
tip_of evidence_id none = "Investigate " <> (evidence_id <> " before retrying.")
tip_of evidence_id (some tip) = tip

tips : List String → List String
unfolding tip_of
tips [] = []
tips (evidence_id ∷ rest) = tip_of evidence_id (lookup evidence_id known_remediations) ∷ tips rest

advise : DecisionStatus → List String → String
unfolding tips
advise allow blocking = "Evidence and policy support proceeding with the proposed action."
advise human_review blocking =
    "Evidence supports the proposed action, but its risk level requires explicit human sign-off before proceeding."
advise block [] = "Action is blocked. Investigate the reported evidence before retrying."
advise block (first ∷ rest) = join " Also: " (tips (first ∷ rest))

unfoldable pub recommend : Decision → String
unfolding advise
recommend decision = advise decision.status decision.blocking_evidence
