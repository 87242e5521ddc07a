-- ===== src/Tracing.antt =====
-- observability/tracing.py: the spans of a diagnosis. What the methods read from the clock and from
-- uuid4 is given to them, and so is what OpenTelemetry answers: the ids of the span that is active in
-- the host, and the ids of a span that it starts, `none` where there is no OpenTelemetry or the span
-- context is not valid. What is passed on to OpenTelemetry is left out.
pub mod Context
pub mod Spans
pub mod Steps
use evidence_tool.Base.{
  ℕ, String, ◌==◌, Bool, true, false, Option, none, some, List, [], ◌∷◌, ◌++◌, if◌then◌else◌,
  nonempty,
}
use evidence_tool.Base.Dict.{Dict, lookup, insert}
use evidence_tool.Models.Value.{Value, text, texts}
use evidence_tool.Tracing.Context.{TraceContext, parse_w3c_traceparent}

pub record SpanRecord : Type 0 where
  pub name : String
  pub span_id : String
  pub parent_span_id : Option String
  pub trace_id : String
  pub start_time_unix_nano : ℕ
  pub end_time_unix_nano : Option ℕ
  pub attributes : Dict Value
  pub status : String
  pub status_description : Option String

abbrev pub set_attribute : String → Value → SpanRecord → SpanRecord
set_attribute key value span = record span { attributes = insert key value span.attributes }

-- a description that is given and not empty takes the place of the old one
abbrev pub described : Option String → Option String → Option String
described old none = old
described old (some new) = if nonempty new then some new else old

-- `SpanRecord.end`
unfoldable pub end_at : ℕ → String → Option String → SpanRecord → SpanRecord
end_at now status description span = record span {
  end_time_unix_nano = some now;
  status = status;
  status_description = described span.status_description description;
}

pub record TraceRecord : Type 0 where
  pub trace_id : String
  pub root_span : SpanRecord
  pub spans : List SpanRecord

-- `DiagnosisTracer`
pub record Tracer : Type 0 where
  pub service_name : String
  pub root_span : Option SpanRecord
  pub spans : List SpanRecord
  pub active_spans : Dict SpanRecord
  pub host_parent_span_id : Option String
  pub trace_id : String

abbrev given : Option String → Option String
given none = none
given (some s) = if nonempty s then some s else none

-- `a or b`
abbrev or_else : Option String → Option String → Option String
or_else a b = elim (given a) [ none ↦ given b | some s ↦ some s ]

abbrev pub or_name : String → Option String → String
or_name default a = elim (given a) [ none ↦ default | some s ↦ s ]

-- the header, the trace id and the span id of the active span of the host, a fresh trace id
abbrev joined : Option TraceContext → Option (String × String) → String → String × Option String
joined (some c) current fresh = (c.trace_id, some c.parent_id)
joined none (some (trace_id, span_id)) fresh = (trace_id, some span_id)
joined none none fresh = (fresh, none)

-- `__init__`: the arguments, the environment, the active span of the host and a fresh trace id
unfoldable pub new_tracer :
    (service_name otel_service_name traceparent env_traceparent : Option String)
    → Option (String × String)
    → String
    → Tracer
new_tracer service_name otel_service_name traceparent env_traceparent current fresh =
    let (trace_id, parent) =
      joined (parse_w3c_traceparent (or_else traceparent env_traceparent)) current fresh in
    record {
      service_name =
          or_name (elim otel_service_name [ none ↦ "evidencetool" | some s ↦ s ]) service_name;
      root_span = none;
      spans = [];
      active_spans = [];
      host_parent_span_id = parent;
      trace_id = trace_id;
    }

-- the trace id and the span id of the span that OpenTelemetry started, or else the two at hand
abbrev pub root_ids : Option (String × String) → String → String → String × String
root_ids none trace_id span_id = (trace_id, span_id)
root_ids (some ids) trace_id span_id = ids

-- `start_root_span`
unfoldable pub start_root_span :
    String → String → Option (String × String) → ℕ → String → Tracer → SpanRecord × Tracer
start_root_span target policy_action otel now fresh t =
    let (trace_id, span_id) = root_ids otel t.trace_id fresh in
    let span : SpanRecord = record {
      name = "evidencetool.diagnosis";
      span_id = span_id;
      parent_span_id = t.host_parent_span_id;
      trace_id = trace_id;
      start_time_unix_nano = now;
      end_time_unix_nano = none;
      attributes =
          ("evidencetool.target", text target)
          ∷ ("evidencetool.policy.action", text policy_action)
          ∷ ("service.name", text t.service_name)
          ∷ [];
      status = "OK";
      status_description = none;
    } in
    (span, record t { root_span = some span; trace_id = trace_id })

abbrev id_of : Option SpanRecord → Option String
id_of none = none
id_of (some span) = some span.span_id

abbrev or_span : Option SpanRecord → Option SpanRecord → Option SpanRecord
or_span none b = b
or_span (some a) b = some a

abbrev span_id_from : Option String → String → String
span_id_from none fresh = fresh
span_id_from (some span_id) fresh = span_id

-- `start_span`
unfoldable pub start_span :
    String → Option SpanRecord → Option String → ℕ → String → Tracer → SpanRecord × Tracer
start_span name parent otel now fresh t =
    let span : SpanRecord = record {
      name = name;
      span_id = span_id_from otel fresh;
      parent_span_id = id_of (or_span parent t.root_span);
      trace_id = t.trace_id;
      start_time_unix_nano = now;
      end_time_unix_nano = none;
      attributes = [];
      status = "OK";
      status_description = none;
    } in
    (span, record t { active_spans = insert name span t.active_spans })

-- `d.pop(key, None)`, as far as the dictionary goes
unfoldable pub remove {ℓ} : {V : Type ℓ} → String → Dict V → Dict V
remove k [] = []
remove k ((j, v) ∷ d) = let rest = remove k d in if k == j then rest else (j, v) ∷ rest

unfoldable pub set_attributes : Dict Value → SpanRecord → SpanRecord
set_attributes [] span = span
set_attributes ((k, v) ∷ rest) span = set_attributes rest (set_attribute k v span)

abbrev pub finished :
    String
    → Option String
    → Dict Value
    → ℕ
    → Tracer
    → String
    → Option SpanRecord
    → Option SpanRecord × Tracer
finished status description attributes now t name none =
    (none, record t { active_spans = remove name t.active_spans })
finished status description attributes now t name (some span) =
    let ended = end_at now status description (set_attributes attributes span) in
    (
      some ended,
      record t { active_spans = remove name t.active_spans; spans = t.spans ++ ended ∷ [] },
    )

-- `end_span`; no attributes are the empty ones
unfoldable pub end_span :
    String → String → Option String → Dict Value → ℕ → Tracer → Option SpanRecord × Tracer
unfolding set_attributes end_at remove
end_span name status description attributes now t =
    finished status description attributes now t name (lookup name t.active_spans)

abbrev pub on_root : (SpanRecord → SpanRecord) → Option SpanRecord → Option SpanRecord
on_root f none = none
on_root f (some span) = some (f span)

abbrev pub decision_entries : String → String → List String → Dict Value
decision_entries status reason blocking_evidence =
    ("evidencetool.decision.status", text status)
    ∷ ("evidencetool.decision.reason", text reason)
    ∷ ("evidencetool.decision.blocking_evidence", texts blocking_evidence)
    ∷ []

-- `record_decision`
unfoldable pub record_decision :
    String → String → List String → String → Option String → ℕ → ℕ → String → Tracer → Tracer
unfolding set_attributes start_span end_span
record_decision status reason blocking_evidence action otel start end fresh t =
    let entries = decision_entries status reason blocking_evidence in
    let enriched : Tracer = record t {
      root_span =
          on_root (set_attributes (entries ++ ("evidencetool.decision.action", text action) ∷ []))
            t.root_span;
    } in
    (end_span "evidencetool.decision" "OK" (some reason) entries end
      (start_span "evidencetool.decision" none otel start fresh enriched).1).1

abbrev pub cause_entry : Option String → Dict Value
cause_entry cause = elim (given cause) [
  | none ↦ []
  | some s ↦ ("evidencetool.causality.primary_root_cause", text s) ∷ []
]

-- `record_causality`
unfoldable pub record_causality :
    String → Option String → List String → List String → ℕ → Tracer → Tracer
unfolding set_attributes end_span
record_causality status cause chain precluded end t =
    let enriched : Tracer = record t {
      root_span =
          on_root
            (set_attributes (("evidencetool.causality.status", text status) ∷ cause_entry cause))
            t.root_span;
    } in
    (end_span "evidencetool.causality" "OK" none
      (("evidencetool.causality.status", text status)
        ∷ ("evidencetool.causality.primary_root_cause", text (or_name "" cause))
        ∷ ("evidencetool.causality.chain", texts chain)
        ∷ ("evidencetool.causality.precluded", texts precluded)
        ∷ [])
      end enriched).1

abbrev pub root_at : String → Option String → ℕ → String → Tracer → Option SpanRecord → SpanRecord
root_at status description now fresh t (some span) = end_at now status description span
root_at status description now fresh t none = record {
  name = "evidencetool.diagnosis";
  span_id = fresh;
  parent_span_id = t.host_parent_span_id;
  trace_id = t.trace_id;
  start_time_unix_nano = now;
  end_time_unix_nano = some now;
  attributes = [];
  status = status;
  status_description = none;
}

-- `finish`, without the exports
unfoldable pub finish : String → Option String → ℕ → String → Tracer → TraceRecord × Tracer
unfolding end_at
finish status description now fresh t =
    let root = root_at status description now fresh t t.root_span in
    (
      record { trace_id = t.trace_id; root_span = root; spans = t.spans },
      record t { root_span = some root },
    )
