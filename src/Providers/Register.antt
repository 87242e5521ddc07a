-- ===== src/Providers/Register.antt =====
-- Registration of providers and their trust levels.
use evidence_tool.Base.{String, ◌≡◌, true, Option, arith}
use evidence_tool.Base.Dict.{lookup, lookup-insert}
use evidence_tool.Diagnose.Collect.{ProviderTrust}
use evidence_tool.Providers.{
  Registered, is_some, default_trust, trust_or, register_provider, get_provider, get_provider_trust,
}

module _ {P : Type 0} where
  -- A namespace has a provider exactly when it has a trust level.
  abbrev pub IsRegistry : Registered P → Type 0
  IsRegistry r =
      (namespace : String)
      → is_some (lookup namespace r.providers) ≡ is_some (lookup namespace r.trust)

  -- Registering keeps the registry in order: afterwards, too, the namespaces with a provider are
  -- those with a trust level.
  pub register_provider-IsRegistry :
      (namespace : String) (provider_cls : P) (trust : Option ProviderTrust) (r : Registered P)
      → IsRegistry r
      → IsRegistry (register_provider namespace provider_cls trust r).1
  unfolding register_provider
  register_provider-IsRegistry namespace provider_cls trust r h other = ground (
    arith,
    h other,
    lookup-insert other namespace provider_cls r.providers,
    lookup-insert other namespace (trust_or (default_trust namespace) trust) r.trust,
  )

  -- Once a namespace has a provider, no registration changes what `get_provider` and
  -- `get_provider_trust` give for it.
  pub register_provider-keeps :
      (namespace other : String) (provider_cls : P) (trust : Option ProviderTrust)
      (r : Registered P)
      → is_some (lookup other r.providers) ≡ true
      → (get_provider other (register_provider namespace provider_cls trust r).1
          ≡ get_provider other r)
        × (get_provider_trust other (register_provider namespace provider_cls trust r).1
            ≡ get_provider_trust other r)
  unfolding register_provider get_provider get_provider_trust
  register_provider-keeps namespace other provider_cls trust r h = ground (
    arith,
    lookup-insert other namespace provider_cls r.providers,
    lookup-insert other namespace (trust_or (default_trust namespace) trust) r.trust,
  )
