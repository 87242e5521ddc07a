-- ===== src/Lib.antt =====
-- EvidenceTool decides whether an operational action may go ahead. Providers observe a system, the
-- observations are judged to be evidence, the evidence is correlated with a catalog of situations
-- and explained by causal rules, and a policy turns the outcome into ALLOW, HUMAN_REVIEW or BLOCK.
-- An integrity check looks at the decision once more, and a gate stands between the pipeline and an
-- AI agent. This library models that path.
--
-- Which file models what (paths from the repository's root):
--   Base            Python's `str`, `list`, `dict`, `set`, `sorted`, `int` of texts, UTF-8 and
--                   exceptions, with lemmas
--   Models          src/evidencetool/models: observation, evidence, policy, situations, decision;
--                   Models.Redaction: _redact and the printed form of observations and evidence
--   Evaluator       src/evidencetool/evidence/evaluator.py: evaluate_observation
--   Correlation     src/evidencetool/decision/correlation.py: correlate_state
--   Engine          src/evidencetool/decision/engine.py: _decide_legacy, _decide_v2, decide
--   Integrity       src/evidencetool/decision/integrity.py: validate_decision_integrity
--   Capability      src/evidencetool/capability/models.py: what a caller may probe, and how often
--   Causality       src/evidencetool/causality: the rules, their loader, reconstruct_causality
--   Recommendation  src/evidencetool/recommendation.py: recommend
--   Diagnose        src/evidencetool/diagnose.py: needed namespaces, the provider loop, the result
--   Loaders         src/evidencetool/policy/loader.py, src/evidencetool/diagnostic/loader.py and
--                   src/evidencetool/capability/loader.py
--   Providers       src/evidencetool/providers/registry.py: the registry and approved plugins
--   Probes          what the providers share: src/evidencetool/providers/base.py (the context),
--                   _shell.py (run_command and its callers), the count of probes
--   Probes.Network  src/evidencetool/providers/network.py: NetworkProvider.collect and its probes
--   Probes.Redis    src/evidencetool/providers/redis.py: the RESP protocol, RedisProvider.collect
--   Tracing         src/evidencetool/observability/tracing.py: the W3C header, DiagnosisTracer
--   Agent           src/evidencetool/agent: AgentSafetyGate.evaluate
--   CommandLine     src/evidencetool/cli/main.py: the context of the options, the exit status
--   Tests           runs at concrete inputs
--
-- Pure functions are functions by clauses. A loop that appends to lists or sets is a recursion that
-- passes the lists on. Code that may raise gives a `Result`, whose errors carry the texts. The probe
-- tracker, which is shared and changed, is passed on and given back, also where a check raises.
-- A set is a list without repetition in the order in which its items came in, a dict an association
-- list in insertion order. The order in which Python iterates over a set is a parameter wherever a
-- result could depend on it.
--
-- A provider runs in a monad of exceptions whose state is the capabilities, its count of probes and
-- the outside world. The outside (Probes.System) is a record of what the providers use: processes,
-- sockets, TLS, HTTP, the file system, urlparse, floats and the clock; each use passes the world on
-- and says what came of it, an exception included. Nothing is supposed of it but, for the RESP
-- protocol, that `recv` gives the waiting bytes in order, at least one if there are any
-- (Probes.Redis.Resp.Frames.IsStream), and once that the empty text is its own lower case.
-- `shlex.quote` is written out in Probes.Shell, and how a POSIX shell reads words in
-- Probes.Shell.Words.
--
-- Times and ages are microseconds, so that the comparisons of floats are comparisons of integers;
-- other floats are millionths. How Python prints numbers and values is a parameter, and so are the
-- module ipaddress with the exceptions it raises, the clock, the providers and the value that
-- yaml.safe_load gives.
--
-- The search of `build_causal_chain` runs on fuel, one more than there are targets in the graph;
-- Causality.Chain is about why that is enough. `_read_resp_line` has a round for every byte that a
-- line may have and one more, the loop over a bulk string one for every byte that it has: both loops
-- stop by then, since each round adds a byte or ends them. Every other recursion is structural.
--
-- Not modelled: the providers other than those of the network and Redis, what is passed on to
-- OpenTelemetry (the ids that it answers are parameters) and the exports of traces, the metrics file,
-- log lines, the incident record with its random id, the other serialisations, the rest of the
-- command line, and the import of the built-in providers.
pub mod Base
pub mod Models
pub mod Evaluator
pub mod Correlation
pub mod Engine
pub mod Integrity
pub mod Capability
pub mod Causality
pub mod Recommendation
pub mod Diagnose
pub mod Loaders
pub mod Providers
pub mod Probes
pub mod Tracing
pub mod CommandLine
pub mod Agent
pub mod Tests
