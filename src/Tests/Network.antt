-- ===== src/Tests/Network.antt =====
-- The network provider at concrete inputs.
use evidence_tool.Base.{
  ◌≤◌, ◌≡◌, refl, true, false, ◌||◌, none, [], ◌∷◌, All, ok, Yields, string_dec, has_infix,
  starts_with,
}
use evidence_tool.Base.Dict.{lookup}
use evidence_tool.Capability.{default_network}
use evidence_tool.Probes.Context.{ProviderContext, get, get_with, is_yes, port_of}
use evidence_tool.Probes.Network.Collect.{Target, collect, target_of, use_tls_of, wants_http}
use evidence_tool.Probes.Network.Run.{Reported, run_ids, collect-Reported, collect-limited}
use evidence_tool.Probes.Network.Off.{IsUnknown, collect_off}
use evidence_tool.Probes.Network.Scheme.{NoTls, collect-NoTls}
use evidence_tool.Tests.World.{small, allowed}
use evidence_tool.Tests.Probes.{ip}

-- a URL over TLS, at its usual port
abbrev secure : ProviderContext
secure = record { kwargs = ("target_host", "https://10.0.0.1/") ∷ []; capabilities = allowed }

abbrev denied : ProviderContext
denied = record secure {
  capabilities = record allowed { network = record default_network { enabled = false } };
}

abbrev target : Target
target = record { target_host = "10.0.0.1"; port_val = 443; http_path = "/"; use_tls = true }

is_target : target_of small secure ≡ ok target
unfolding target_of get_with lookup string_dec has_infix starts_with
is_target = refl

no_port : port_of (get secure "port") 443 ≡ ok 443
unfolding port_of get_with lookup string_dec
no_port = refl

collect-Reported_example :
    Yields
      (Reported (
        run_ids
          (use_tls_of small secure 443 true || is_yes (get secure "check_tls"))
          (wants_http small secure 443)))
      (collect small ip secure []).0
collect-Reported_example = collect-Reported small ip secure [] target 443 is_target no_port

collect-limited_example : (collect small ip secure []).1.probe_count ≤ 3
collect-limited_example = collect-limited small ip secure [] 3 refl

collect_off_example :
    ((collect small ip denied []).1.world ≡ [])
    × Yields (All IsUnknown) (collect small ip denied []).0
collect_off_example = collect_off small ip [] denied refl

unset : lookup "use_tls" secure.kwargs ≡ none
unfolding lookup string_dec
unset = refl

unasked : is_yes (get secure "check_tls") ≡ false
unfolding get_with lookup string_dec
unasked = refl

collect-NoTls_example : Yields NoTls (collect small ip secure []).0
collect-NoTls_example = collect-NoTls small ip secure [] unset refl unasked
