-- ===== src/Tests/Tracing.antt =====
-- Traces at concrete inputs.
use evidence_tool.Base.{count_chars, String, ◌≡◌, refl, none, some, List, [], ◌∷◌, string_dec}
use evidence_tool.Base.Decimal.{strip}
use evidence_tool.Models.Value.{text}
use evidence_tool.Tracing.{new_tracer, start_root_span, finish}
use evidence_tool.Tracing.Steps.{
  Step, open_span, close_span, decided, noted, perform_all, IsTraceOf, finish-IsTraceOf,
}
use evidence_tool.Tracing.Context.{
  TraceContext, parse_w3c_traceparent, groups, take_hex, take_dash, lower_hex, check_context,
}
use evidence_tool.Tracing.Context.Shape.{IsContext, parse_w3c_traceparent-IsContext}
use evidence_tool.Tracing.Context.RoundTrip.{format_traceparent, parse-format_traceparent}

abbrev header : String
header = "00-4bf92f3577b34da6a3ce929d0e0e4736-00f067aa0ba902b7-01"

abbrev context : TraceContext
context = record {
  version = "00";
  trace_id = "4bf92f3577b34da6a3ce929d0e0e4736";
  parent_id = "00f067aa0ba902b7";
  flags = "01";
  raw = header;
}

is_parsed : parse_w3c_traceparent (some header) ≡ some context
unfolding parse_w3c_traceparent groups take_hex strip take_dash check_context string_dec lower_hex
    count_chars
is_parsed = refl

parse_w3c_traceparent-IsContext_example : IsContext context
parse_w3c_traceparent-IsContext_example =
    parse_w3c_traceparent-IsContext (some header) context is_parsed

parse-format_traceparent_example :
    parse_w3c_traceparent (some (format_traceparent context))
    ≡ some (record context { raw = format_traceparent context })
parse-format_traceparent_example =
    parse-format_traceparent context parse_w3c_traceparent-IsContext_example

abbrev steps : List Step
steps =
    noted (("evidencetool.authority.caller_id", text "ci") ∷ [])
    ∷ open_span "evidencetool.collect" none (some "b2") 2 "a2"
    ∷ close_span "evidencetool.collect" "OK" none [] 3
    ∷ decided "BLOCK" "no evidence" [] "restart" none 4 5 "a3"
    ∷ []

-- a root span that OpenTelemetry started in a trace of its own
finish-IsTraceOf_example :
    IsTraceOf "c1"
      (finish "OK" none 6 "a4" (
        perform_all steps
          (start_root_span "node-1" "restart"
            (some ("c1", "b1"))
            1
            "a1"
            (new_tracer none none (some header) none none "f1")).1)).0
finish-IsTraceOf_example =
    finish-IsTraceOf none none (some header) none none "f1" "node-1" "restart" (some ("c1", "b1")) 1
      "a1" steps "OK" none 6 "a4"

-- the trace id of the header, which the span of OpenTelemetry has taken the place of
reassigned :
    ((new_tracer none none (some header) none none "f1").trace_id
      ≡ "4bf92f3577b34da6a3ce929d0e0e4736")
    × ((start_root_span "node-1" "restart"
          (some ("c1", "b1"))
          1
          "a1"
          (new_tracer none none (some header) none none "f1")).1.trace_id
        ≡ "c1")
unfolding new_tracer start_root_span parse_w3c_traceparent groups take_hex strip take_dash
    check_context string_dec lower_hex count_chars
reassigned = (refl, refl)

-- the active span of the host gives the trace id where there is no header
host_trace : (new_tracer none none none none (some ("d1", "d2")) "f1").trace_id ≡ "d1"
unfolding new_tracer parse_w3c_traceparent
host_trace = refl
