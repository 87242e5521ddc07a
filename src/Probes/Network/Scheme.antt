-- ===== src/Probes/Network/Scheme.antt =====
-- When the network provider speaks TLS: the scheme of the target and the port do not matter.
use evidence_tool.Base.{
  ℕ, ◌≡◌, refl, Bool, true, false, none, List, contains, Result, ok, err, Yields, inl, inr,
  Result-cases, string_dec,
}
use evidence_tool.Base.Dict.{lookup}
use evidence_tool.Models.Observation.{Observation}
use evidence_tool.Capability.{IpAddresses}
use evidence_tool.Diagnose.Collect.{ids_of}
use evidence_tool.Probes.System.{Outside}
use evidence_tool.Probes.Session.{raise}
use evidence_tool.Probes.Context.{ProviderContext, get, get_with, is_yes, port_of}
use evidence_tool.Probes.Network.Collect.{
  Target, run_at, start, collect, target_of, use_tls_of, wants_http,
}
use evidence_tool.Probes.Network.Run.{Reported, run_ids, collect-Reported}

no_tls_id : (http : Bool) → contains (run_ids false http) "network.tls_handshake" ≡ false
unfolding string_dec
no_tls_id true = refl
no_tls_id false = refl

abbrev pub NoTls : List Observation → Type 0
NoTls seen = contains (ids_of seen) "network.tls_handshake" ≡ false

Yields-NoTls :
    (http : Bool) (r : Result (List Observation))
    → Yields (Reported (run_ids false http)) r
    → Yields NoTls r
Yields-NoTls http (ok seen) h = rw h.listed (no_tls_id http)
Yields-NoTls http (err e) h = tt

module _ (o : Outside) (ip : IpAddresses) (context : ProviderContext) (w : o.World)
    (unset : lookup "use_tls" context.kwargs ≡ none) (lower : o.lower "" ≡ "") where
  -- Without a `use_tls` of the context, neither the scheme of the target nor its port turns TLS on.
  use_tls_off : (port : ℕ) (use_tls : Bool) → use_tls_of o context port use_tls ≡ false
  unfolding use_tls_of get_with string_dec
  use_tls_off port use_tls = rw (unset, lower)

  collect_with :
      (r : Result Target)
      → target_of o context ≡ r
      → is_yes (get context "check_tls") ≡ false
      → Yields NoTls (collect o ip context w).0
  unfolding collect start run_at raise
  collect_with (err e) parsed h = rw parsed tt
  collect_with (ok t) parsed h = elim (Result-cases (port_of (get context "port") t.port_val)) [
    | inl (e, bad) ↦ rw (parsed, bad) tt
    | inr (port, good) ↦
        Yields-NoTls (wants_http o context port) _ (
          rw (use_tls_off port t.use_tls, h) at
            (collect-Reported o ip context w t port parsed good))
  ]

  -- Where the context has no `use_tls` and does not ask for `check_tls`, and the empty text is its own
  -- lower case, no run observes a TLS handshake, not even for an https URL or port 443.
  pub collect-NoTls :
      is_yes (get context "check_tls") ≡ false → Yields NoTls (collect o ip context w).0
  collect-NoTls = collect_with (target_of o context) refl
