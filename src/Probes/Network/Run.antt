-- ===== src/Probes/Network/Run.antt =====
-- What `collect` of the network provider reports, and how many probes it counts.
use evidence_tool.Base.{
  ℕ, String, ◌≡◌, refl, ap, ◌∙◌, Bool, true, false, ◌||◌, Option, some, List, [], ◌∷◌, ◌++◌, All,
  Result, ok, err, Yields, ◌≤◌, arith, inl, inr, Result-cases,
}
use evidence_tool.Models.Observation.{Observation}
use evidence_tool.Capability.{IpAddresses}
use evidence_tool.Diagnose.Collect.{ids_of}
use evidence_tool.Probes.System.{Outside}
use evidence_tool.Probes.Session.{Session, Probe, raise, request}
use evidence_tool.Probes.Session.Rules.{
  Triple, Lax, Triple-pure, Triple-bind, Anywhere, Limited, request-Anywhere, request-Limited,
}
use evidence_tool.Probes.Context.{ProviderContext, get, is_yes, port_of}
use evidence_tool.Probes.Network.{has_failed}
use evidence_tool.Probes.Network.Collect.{
  Target, run_checks, run_at, start, collect, target_of, use_tls_of, wants_http, append_if,
}
use evidence_tool.Probes.Network.Findings.{HasStatus}
use evidence_tool.Probes.Network.Reports.{
  Describes, dns_lem, route_lem, host_lem, port_lem, handshake_lem, http_lem,
}

-- These ids were observed, in this order, each with a status that the evaluator knows.
pub record Reported (ids : List String) (seen : List Observation) : Type 0 where
  pub listed : ids_of seen ≡ ids
  pub statuses : All (λ (x : Observation). HasStatus x.value) seen

abbrev if_asked : Bool → String → List String
if_asked true id = id ∷ []
if_asked false id = []

abbrev four : List String
four =
    "network.dns_resolvable" ∷ "network.route_exists" ∷ "network.host_reachable"
    ∷ "network.port_reachable" ∷ []

-- The ids that a run observes where TLS and HTTP are asked for or not.
abbrev pub run_ids : Bool → Bool → List String
run_ids tls http =
    (four ++ if_asked tls "network.tls_handshake") ++ if_asked http "network.http_reachable"

ids_of-append : (xs ys : List Observation) → ids_of (xs ++ ys) ≡ ids_of xs ++ ids_of ys
ids_of-append [] ys = refl
ids_of-append (x ∷ xs) ys = ap (λ r. x.id ∷ r) (ids_of-append xs ys)

pub All-append {ℓ} :
    {A : Type 0} (P : A → Type ℓ) (xs ys : List A) → All P xs → All P ys → All P (xs ++ ys)
All-append P [] ys h k = k
All-append P (x ∷ xs) ys h k = (h.0, All-append P xs ys h.1 k)

append_nil {ℓ} : {A : Type ℓ} (xs : List A) → xs ++ [] ≡ xs
append_nil [] = refl
append_nil (x ∷ xs) = ap (λ r. x ∷ r) (append_nil xs)

Reported-four :
    (dns route echo tcp : Observation)
    → Describes "network.dns_resolvable" dns
    → Describes "network.route_exists" route
    → Describes "network.host_reachable" echo
    → Describes "network.port_reachable" tcp
    → Reported four (dns ∷ route ∷ echo ∷ tcp ∷ [])
Reported-four dns route echo tcp a b c d = record {
  listed = rw (a.has_id, b.has_id, c.has_id, d.has_id);
  statuses = (a.status, (b.status, (c.status, (d.status, tt))));
}

Reported-snoc :
    (ids : List String) (seen : List Observation) (id : String) (found : Observation)
    → Reported ids seen
    → Describes id found
    → Reported (ids ++ id ∷ []) (seen ++ found ∷ [])
Reported-snoc ids seen id found r d = record {
  listed = ids_of-append seen (found ∷ []) ∙ rw (r.listed, d.has_id);
  statuses = All-append _ seen (found ∷ []) r.statuses (d.status, tt);
}

module _ (o : Outside) {I : Session o.World → Type 0} where
  append_if_lem :
      (ip : IpAddresses) (b : Bool) (id : String) (probe : Probe o.World Observation)
      (ids : List String) (seen : List Observation)
      → Triple I (Describes id) probe
      → Reported ids seen
      → Triple I (Reported (ids ++ if_asked b id)) (append_if o ip b probe seen)
  append_if_lem ip false id probe ids seen h r = Triple-pure seen (rw (append_nil ids) r)
  append_if_lem ip true id probe ids seen h r =
      Triple-bind (Describes id) (Reported (ids ++ id ∷ [])) probe _ h
        λ found d. Triple-pure _ (Reported-snoc ids seen id found r d)

  module _ (lax : Lax I) (ip : IpAddresses)
      (asks : (operation target : String) (port : Option ℕ)
        → Triple I (λ _. Unit {0}) (request ip operation target port)) where
    run_checks_lem :
        (context : ProviderContext) (t : Target) (port : ℕ) (use_tls : Bool)
        → Triple I
            (Reported
              (run_ids (use_tls || is_yes (get context "check_tls")) (wants_http o context port)))
            (run_checks o ip context t port use_tls)
    unfolding run_checks
    run_checks_lem context t port use_tls =
        let host = get context "host" in
        let Goal =
          Reported
            (run_ids (use_tls || is_yes (get context "check_tls")) (wants_http o context port)) in
        Triple-bind (Describes "network.dns_resolvable") Goal _ _
          (dns_lem o lax ip asks t.target_host host)
          λ dns name.
            Triple-bind (Describes "network.route_exists") Goal _ _
              (route_lem o lax ip asks t.target_host host)
              λ route way.
                Triple-bind (Describes "network.host_reachable") Goal _ _
                  (host_lem o lax ip asks t.target_host host)
                  λ echo heard.
                    Triple-bind (Describes "network.port_reachable") Goal _ _
                      (port_lem o lax ip asks t.target_host port host)
                      λ tcp open_port.
                        Triple-bind
                          (Reported (
                            four
                            ++ if_asked (use_tls || is_yes (get context "check_tls"))
                                "network.tls_handshake"))
                          Goal _ _
                          (append_if_lem ip (use_tls || is_yes (get context "check_tls")) _ _ four _
                            (handshake_lem o lax ip asks t.target_host port host
                              (has_failed tcp.value))
                            (Reported-four dns route echo tcp name way heard open_port))
                          λ with_tls r.
                            append_if_lem ip (wants_http o context port) _ _ _ with_tls
                              (http_lem o lax ip asks t.target_host port t.http_path use_tls host
                                (has_failed tcp.value))
                              r

    start_lem :
        (context : ProviderContext) (t : Target) (port : ℕ)
        → port_of (get context "port") t.port_val ≡ ok port
        → Triple I
            (Reported (
              run_ids
                (use_tls_of o context port t.use_tls || is_yes (get context "check_tls"))
                (wants_http o context port)))
            (start o ip context (ok t))
    unfolding start run_at
    start_lem context t port h =
        rw h (run_checks_lem context t port (use_tls_of o context port t.use_tls))

module _ (o : Outside) (ip : IpAddresses) (context : ProviderContext) (w : o.World) where
  -- A run for a valid target and port that does not raise observes, in this order, the name, the route, the host and the port,
  -- then the TLS handshake and the HTTP request if they are asked for, once each, and each
  -- observation has the status PASS, FAIL or UNKNOWN, whatever the system does.
  pub collect-Reported :
      (t : Target) (port : ℕ)
      → target_of o context ≡ ok t
      → port_of (get context "port") t.port_val ≡ ok port
      → Yields
          (Reported (
            run_ids
              (use_tls_of o context port t.use_tls || is_yes (get context "check_tls"))
              (wants_http o context port)))
          (collect o ip context w).0
  unfolding collect
  collect-Reported t port parsed h =
      let run =
        start_lem o {I = Anywhere} (λ s w' k. tt) ip
          (λ operation target p. request-Anywhere ip operation target p) context t port h in
      rw parsed
        (run.at (record { capabilities = context.capabilities; probe_count = 0; world = w }) tt).1

  start-Limited :
      (limit : ℕ) (r : Result Target)
      → context.capabilities.network.max_probes ≡ some limit
      → Limited limit
          (start o ip context r
            (record { capabilities = context.capabilities; probe_count = 0; world = w })).1
  unfolding start run_at raise
  start-Limited limit (err e) h = (h, omega arith)
  start-Limited limit (ok t) h =
      let begun : Session o.World = record {
        capabilities = context.capabilities;
        probe_count = 0;
        world = w;
      } in
      elim (Result-cases (port_of (get context "port") t.port_val)) [
        | inl (e, bad) ↦ rw bad (h, omega arith)
        | inr (port, good) ↦
            (let run =
                start_lem o {I = Limited limit} (λ s w' k. k) ip
                  (λ operation target p. request-Limited ip operation target p limit) context t port
                  good in
              (run.at begun (h, omega arith)).0)
      ]

  -- Where the network capability has a limit, no run counts more probes, whether it raises or not.
  pub collect-limited :
      (limit : ℕ)
      → context.capabilities.network.max_probes ≡ some limit
      → (collect o ip context w).1.probe_count ≤ limit
  unfolding collect
  collect-limited limit h = (start-Limited limit (target_of o context) h).1
