-- ===== src/Tracing/Steps.antt =====
-- A whole diagnosis, seen from its tracer.
use evidence_tool.Base.{ℕ, String, ◌≡◌, refl, Option, none, some, List, [], ◌∷◌, ◌++◌}
use evidence_tool.Base.Dict.{Dict}
use evidence_tool.Models.Value.{Value, text, texts}
use evidence_tool.Tracing.{
  SpanRecord, TraceRecord, Tracer, end_at, start_root_span, start_span, end_span, record_decision,
  record_causality, finish, set_attributes, on_root, decision_entries, cause_entry, or_name,
  root_at, new_tracer,
}
use evidence_tool.Tracing.Spans.{
  Of, OfEach, OfSome, IsWhole, start_span-IsWhole, end_span-IsWhole, enrich-IsWhole,
}

-- What a diagnosis asks of its tracer after the root span, with what is read from the clock, the ids
-- that OpenTelemetry answers and the fresh ones.
pub data Step : Type 0 where
  open_span :
      (name : String) (parent : Option SpanRecord) (otel : Option String) (now : ℕ) (fresh : String)
      → Step
  close_span :
      (name status : String) (description : Option String) (attributes : Dict Value) (now : ℕ)
      → Step
  decided :
      (status reason : String) (blocking : List String) (action : String) (otel : Option String)
      (start end : ℕ) (fresh : String)
      → Step
  -- attributes that `diagnose` sets on the root span itself
  noted : (attributes : Dict Value) → Step
  explained :
      (status : String) (cause : Option String) (chain precluded : List String) (end : ℕ) → Step

unfoldable pub perform : Step → Tracer → Tracer
unfolding start_span end_span record_decision record_causality set_attributes
perform (open_span name parent otel now fresh) t = (start_span name parent otel now fresh t).1
perform (close_span name status description attributes now) t =
    (end_span name status description attributes now t).1
perform (decided status reason blocking action otel start end fresh) t =
    record_decision status reason blocking action otel start end fresh t
perform (noted attributes) t = record t {
  root_span = on_root (set_attributes attributes) t.root_span;
}
perform (explained status cause chain precluded end) t =
    record_causality status cause chain precluded end t

unfoldable pub perform_all : List Step → Tracer → Tracer
unfolding perform
perform_all [] t = t
perform_all (step ∷ steps) t = perform_all steps (perform step t)

perform-IsWhole :
    (id : String) (step : Step) (t : Tracer) → IsWhole id t → IsWhole id (perform step t)
unfolding perform record_decision record_causality
perform-IsWhole id (open_span name parent otel now fresh) t h =
    start_span-IsWhole id name parent otel now fresh t h
perform-IsWhole id (close_span name status description attributes now) t h =
    end_span-IsWhole id name status description attributes now t h
perform-IsWhole id (decided status reason blocking action otel start end fresh) t h =
    let entries = decision_entries status reason blocking in
    end_span-IsWhole id "evidencetool.decision" "OK" (some reason) entries end _ (
      start_span-IsWhole id _ none otel start fresh _
        (enrich-IsWhole id (entries ++ ("evidencetool.decision.action", text action) ∷ []) t h))
perform-IsWhole id (noted attributes) t h = enrich-IsWhole id attributes t h
perform-IsWhole id (explained status cause chain precluded end) t h =
    end_span-IsWhole id "evidencetool.causality" "OK" none
      (("evidencetool.causality.status", text status)
        ∷ ("evidencetool.causality.primary_root_cause", text (or_name "" cause))
        ∷ ("evidencetool.causality.chain", texts chain)
        ∷ ("evidencetool.causality.precluded", texts precluded)
        ∷ [])
      end _
      (enrich-IsWhole id (("evidencetool.causality.status", text status) ∷ cause_entry cause) t h)

perform_all-IsWhole :
    (id : String) (steps : List Step) (t : Tracer) → IsWhole id t → IsWhole id (perform_all steps t)
unfolding perform_all
perform_all-IsWhole id [] t h = h
perform_all-IsWhole id (step ∷ steps) t h =
    perform_all-IsWhole id steps (perform step t) (perform-IsWhole id step t h)

-- The trace and its root and all its spans carry the trace id.
pub record IsTraceOf (id : String) (trace : TraceRecord) : Type 0 where
  pub own : trace.trace_id ≡ id
  pub root : Of id trace.root_span
  pub spans : OfEach id trace.spans

root_at-Of :
    (id status : String) (description : Option String) (now : ℕ) (fresh : String) (t : Tracer)
    (o : Option SpanRecord)
    → t.trace_id ≡ id
    → OfSome id o
    → Of id (root_at status description now fresh t o)
unfolding end_at
root_at-Of id status description now fresh t none own h = own
root_at-Of id status description now fresh t (some span) own h = h

-- The trace id of the root span that OpenTelemetry started, or else the tracer's.
abbrev pub trace_of : Option (String × String) → String → String
trace_of none id = id
trace_of (some (trace_id, span_id)) id = trace_id

-- Once the root span is started, a tracer that was just made is whole.
begun-IsWhole :
    (service otel_service traceparent env : Option String) (current : Option (String × String))
    (fresh target action : String) (otel : Option (String × String)) (start : ℕ) (first : String)
    → let t = new_tracer service otel_service traceparent env current fresh in
      IsWhole (trace_of otel t.trace_id) (start_root_span target action otel start first t).1
unfolding new_tracer start_root_span
begun-IsWhole service otel_service traceparent env current fresh target action none start first =
    record { own = refl; root = refl; ended = tt; active = tt }
begun-IsWhole service otel_service traceparent env current fresh target action (some ids) start
      first =
    record { own = refl; root = refl; ended = tt; active = tt }

-- Whatever OpenTelemetry answers, and whatever steps a diagnosis takes, in whatever order, after it
-- has made its tracer and started its root span: the trace that it ends with, its root and every
-- span in it carry the same trace id, that of the root span that OpenTelemetry started, and the
-- tracer's where it started none.
pub finish-IsTraceOf :
    (service otel_service traceparent env : Option String) (current : Option (String × String))
    (fresh target action : String) (otel : Option (String × String)) (start : ℕ) (first : String)
    (steps : List Step) (status : String) (description : Option String) (now : ℕ) (other : String)
    → let t = new_tracer service otel_service traceparent env current fresh in
      let begun = (start_root_span target action otel start first t).1 in
      IsTraceOf
        (trace_of otel t.trace_id)
        (finish status description now other (perform_all steps begun)).0
unfolding finish
finish-IsTraceOf service otel_service traceparent env current fresh target action otel start first
      steps status description now other =
    let t = new_tracer service otel_service traceparent env current fresh in
    let begun = (start_root_span target action otel start first t).1 in
    let id = trace_of otel t.trace_id in
    let h = perform_all-IsWhole id steps begun (
      begun-IsWhole service otel_service traceparent env current fresh target action otel start
        first) in
    record {
      own = h.own;
      root =
          root_at-Of id status description now other (perform_all steps begun)
            (perform_all steps begun).root_span h.own h.root;
      spans = h.ended;
    }
