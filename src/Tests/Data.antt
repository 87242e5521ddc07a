-- ===== src/Tests/Data.antt =====
-- A service with an nginx configuration and a systemd unit, its policies and its providers.
use evidence_tool.Base.{
  String, false, Option, none, some, List, [], ◌∷◌, ◌++◌, ◌≡◌, refl, arith, contains,
  contains-append, Nodup, Nodup-snoc, ◌==◌, if◌then◌else◌, Result, ok, err, os_error,
}
use evidence_tool.Base.Int.{pos}
use evidence_tool.Models.Value.{Value, text, object}
use evidence_tool.Models.Observation.{Observation}
use evidence_tool.Models.Evidence.{Evidence, EvidenceStatus, pass, fail}
use evidence_tool.Models.Policy
use evidence_tool.Models.Policy.{Policy, EvidenceRequirement, v1_legacy, v2_situational, low}
use evidence_tool.Models.Correlation.{Situation}
use evidence_tool.Evaluator.{Numerals}
use evidence_tool.Capability.{ExecutionContext}
use evidence_tool.Causality.Candidates.{IsOrder}
use evidence_tool.Diagnose.Collect.{Registry, builtin}
use evidence_tool.Loaders.{Printing}

abbrev pub numerals : Numerals
numerals = record { rounded = λ n. "n"; plain = λ n. "n" }

abbrev pub observation_of : String → String → String → Observation
observation_of id source status = record {
  id = id;
  source = source;
  category = "configuration";
  collector = source;
  method = "probe";
  value = object (("status", text status) ∷ []);
  message = "seen";
  observed_at = 1000;
  collected_at = 1000;
  host = none;
  execution_scope = none;
  target = none;
  capability = none;
  transport_status = none;
}

abbrev pub config_valid : Observation
config_valid = observation_of "nginx.config_valid" "nginx" "PASS"

abbrev pub evidence_with : String → EvidenceStatus → Evidence
evidence_with id status = record {
  observation = observation_of id "nginx" "PASS";
  status = status;
  message = "seen";
  is_stale = false;
}

abbrev pub needs_config : EvidenceRequirement
needs_config = record {
  id = "nginx.config_valid";
  on_unknown = Policy.OnUnknown.block;
  max_age = none;
}

abbrev pub needs_unit : EvidenceRequirement
needs_unit = record {
  id = "systemd.service_active";
  on_unknown = Policy.OnUnknown.ignore;
  max_age = some (pos 60000000);
}

abbrev pub restart : Policy
restart = record {
  version = "1";
  action = "restart_nginx";
  risk = low;
  schema = v1_legacy;
  required_evidence = needs_config ∷ needs_unit ∷ [];
  allow = [];
  blocked_by = [];
  human_approval = false;
}

abbrev pub down : Situation
down = record {
  id = "DOWN";
  description = "the unit is not active";
  signature = ("nginx.config_valid", pass) ∷ ("systemd.service_active", fail) ∷ [];
}

abbrev pub broken : Situation
broken = record {
  id = "BROKEN";
  description = "the configuration is not valid";
  signature = ("nginx.config_valid", fail) ∷ [];
}

abbrev pub catalog : List Situation
catalog = down ∷ broken ∷ []

abbrev pub situational : Policy
situational = record restart {
  schema = v2_situational;
  allow = "DOWN" ∷ [];
  blocked_by = "BROKEN" ∷ [];
}

abbrev pub seen_down : List Evidence
seen_down =
    evidence_with "nginx.config_valid" pass ∷ evidence_with "systemd.service_active" fail ∷ []

-- nginx answers; systemd cannot be reached
abbrev pub collect_nginx :
    String → Option ExecutionContext → Result (List Observation) × Option ExecutionContext
collect_nginx namespace execution =
    if namespace == "nginx"
    then (ok (config_valid ∷ []), execution)
    else (err (os_error "no route to host"), execution)

abbrev pub registry : Registry
registry = record {
  get_provider_trust = λ namespace. ok builtin;
  collect = collect_nginx;
  now = λ id. 1000;
}

abbrev pub same_order : List String → List String
same_order xs = xs

abbrev pub reversed : List String → List String
reversed [] = []
reversed (x ∷ xs) = reversed xs ++ x ∷ []

pub same_order-IsOrder : IsOrder same_order
same_order-IsOrder = record { members = λ xs a. refl; nodup = λ xs u. u }

contains-reversed : (xs : List String) (a : String) → contains (reversed xs) a ≡ contains xs a
contains-reversed [] a = refl
contains-reversed (x ∷ xs) a =
    ground (arith, contains-append (reversed xs) (x ∷ []) a, contains-reversed xs a)

reversed-Nodup : (xs : List String) → Nodup xs → Nodup (reversed xs)
reversed-Nodup [] u = tt
reversed-Nodup (x ∷ xs) u =
    Nodup-snoc (reversed xs) x (reversed-Nodup xs u.1) (ground (arith, contains-reversed xs x))

pub reversed-IsOrder : IsOrder reversed
reversed-IsOrder = record { members = contains-reversed; nodup = reversed-Nodup }

abbrev print_value : Value → String
print_value (text s) = s
print_value _ = "value"

abbrev pub printing : Printing
printing = record { number = λ n. "0"; value = print_value; texts = λ xs. "[]" }
