-- ===== src/Providers.antt =====
-- providers/registry.py: the providers by namespace, and the plugins that a manifest approves. The
-- three module variables are a state that is passed on. Finding, hashing and importing a module
-- are parameters; an import registers what it registers by changing the state.
pub mod Register
pub mod Plugins
use Prim.Native.Char.{code}
use evidence_tool.Base.{
  count_chars, ℕ, zero, suc, ◌+◌, String, ◌<>◌, ◌==◌, Bool, true, false, not, ◌&&◌, ◌||◌, Option,
  none, some, List, [], ◌∷◌, if◌then◌else◌, nonempty, nat_beq, leb, contains, Result, ok, err,
  value_error, ◌>>=◌, ◌>>◌, guard,
}
use evidence_tool.Base.Dict.{Dict, lookup, insert, keys}
use evidence_tool.Models.Value.{Value, text, list, mapping, items, get_key}
use evidence_tool.Diagnose.Collect.{ProviderTrust, builtin, approved, experimental}

abbrev pub builtin_namespaces : List String
builtin_namespaces =
    "container" ∷ "dependency" ∷ "docker" ∷ "filesystem" ∷ "k8s" ∷ "kubernetes" ∷ "mysql"
    ∷ "network" ∷ "nginx" ∷ "postgres" ∷ "process" ∷ "redis" ∷ "systemd" ∷ "tls" ∷ []

-- `P` stands for the provider classes.
pub record Registered (P : Type 0) : Type 0 where
  pub providers : Dict P
  pub trust : Dict ProviderTrust

-- `namespace in _PROVIDERS`
abbrev pub is_some {ℓ} : {A : Type ℓ} → Option A → Bool
is_some none = false
is_some (some a) = true

abbrev pub default_trust : String → ProviderTrust
default_trust namespace = if contains builtin_namespaces namespace then builtin else experimental

-- `trust or (...)`
abbrev pub trust_or : ProviderTrust → Option ProviderTrust → ProviderTrust
trust_or default none = default
trust_or default (some trust) = trust

abbrev pub is_hex : ℕ → Bool
is_hex n = (leb 48 n && leb n 57) || (leb 97 n && leb n 102) || (leb 65 n && leb n 70)

unfoldable pub all_hex : String → Bool
all_hex String.[] = true
all_hex (String.◌∷◌ c s) = is_hex (code c) && all_hex s

pub record ProviderManifest : Type 0 where
  pub namespace : String
  pub module_name : String
  pub sha256 : String

-- `isinstance(v, str)` and `not v` in one test
abbrev pub filled : Option Value → Option String
filled (some (text s)) = if nonempty s then some s else none
filled _ = none

unfoldable pub manifest_of : Option String → Option String → Option String → Option ProviderManifest
manifest_of (some namespace) (some module_name) (some sha256) =
    some (record { namespace = namespace; module_name = module_name; sha256 = sha256 })
manifest_of _ _ _ = none

-- what Python does outside of this file
pub record Modules (P : Type 0) : Type 0 where
  pub origin : String → Option String
  pub digest : String → String
  pub lower : String → String
  pub import_module : String → Registered P → Result (Unit {0}) × Registered P
  pub number : ℕ → String

unfoldable pub found {ℓ} : {A : Type ℓ} → String → Option A → Result A
found namespace none =
    err (value_error ("No provider registered for namespace: '" <> (namespace <> "'")))
found namespace (some a) = ok a

module _ {P : Type 0} where
  unfoldable pub register_provider :
      String → P → Option ProviderTrust → Registered P → Result (Unit {0}) × Registered P
  register_provider namespace provider_cls trust r =
      if is_some (lookup namespace r.providers)
      then (
        err (value_error ("Provider namespace '" <> (namespace <> "' is already registered."))),
        r,
      )
      else (
        ok tt,
        record {
          providers = insert namespace provider_cls r.providers;
          trust = insert namespace (trust_or (default_trust namespace) trust) r.trust;
        },
      )

  unfoldable pub get_provider : String → Registered P → Result P
  unfolding found
  get_provider namespace r = found namespace (lookup namespace r.providers)

  -- A namespace that has a provider has a trust level, so the KeyError of the second lookup takes
  -- the text of the first one here.
  unfoldable pub get_provider_trust : String → Registered P → Result ProviderTrust
  unfolding found
  get_provider_trust namespace r = do
    _ ← found namespace (lookup namespace r.providers)
    found namespace (lookup namespace r.trust)

  module _ (modules : Modules P) where
    open modules use {origin, digest, lower, import_module, number}

    unfoldable pub parse_manifest : ℕ → Value → Result ProviderManifest
    unfolding manifest_of
    parse_manifest index (mapping fs) =
        let item = mapping fs in
        elim (manifest_of (filled (get_key "namespace" item)) (filled (get_key "module" item))
          (filled (get_key "sha256" item))) [
            | none ↦ err (
                value_error (
                  "Invalid provider manifest: plugins["
                  <> (number index <> "] requires namespace, module and sha256.")))
            | some m ↦
                guard (nat_beq (count_chars m.sha256) 64 && all_hex m.sha256) (
                  value_error (
                    "Invalid provider manifest: plugins["
                    <> (number index <> "].sha256 is invalid.")))
                >> ok m
          ]
    parse_manifest index _ = err (
        value_error
          ("Invalid provider manifest: plugins[" <> (number index <> "] must be a mapping.")))

    -- the file that the module comes from
    unfoldable pub source_of : String → Option String → Result String
    source_of module_name none = err (
        value_error
          ("Provider plugin module '" <> (module_name <> "' has no verifiable source file.")))
    source_of module_name (some path) =
        guard (not (contains ("" ∷ "built-in" ∷ "frozen" ∷ []) path)) (
          value_error
            ("Provider plugin module '" <> (module_name <> "' has no verifiable source file.")))
        >> ok path

    unfoldable pub verify : ProviderManifest → Result (Unit {0})
    unfolding source_of
    verify m = do
      path ← source_of m.module_name (origin m.module_name)
      guard (lower (digest path) == lower m.sha256)
          (value_error ("Provider plugin '" <> (m.module_name <> "' failed SHA-256 verification.")))

    -- `_PROVIDER_TRUST[namespace] = APPROVED`, if the import registered the namespace
    unfoldable pub approve :
        ProviderManifest → Result (Unit {0}) × Registered P → Result (Unit {0}) × Registered P
    approve m (err e, r) = (err e, r)
    approve m (ok _, r) =
        if is_some (lookup m.namespace r.providers)
        then (ok tt, record r { trust = insert m.namespace approved r.trust })
        else (
          err (
              value_error (
                "Provider plugin '"
                <> (m.module_name <> ("' did not register namespace '" <> (m.namespace <> "'."))))),
          r,
        )

    unfoldable pub load_verified :
        ProviderManifest → Result (Unit {0}) → Registered P → Result (Unit {0}) × Registered P
    load_verified m (err e) r = (err e, r)
    load_verified m (ok _) r = approve m (import_module m.module_name r)

    -- the body of the loop
    unfoldable pub load_plugin :
        Result ProviderManifest → Registered P → Result (Unit {0}) × Registered P
    unfolding load_verified approve
    load_plugin (err e) r = (err e, r)
    load_plugin (ok m) r = load_verified m (verify m) r

    -- the loop stops where a turn raises
    unfoldable pub load_plugins : ℕ → List Value → Registered P → Result (Unit {0}) × Registered P
    unfolding load_plugin parse_manifest
    load_plugins index [] r = (ok tt, r)
    load_plugins index (item ∷ rest) r =
        let (outcome, after) = load_plugin (parse_manifest index item) r in
        let later = load_plugins (suc index) rest after in
        elim outcome [ ok _ ↦ later | err e ↦ (err e, after) ]

    unfoldable pub plugins_in : Option Value → Registered P → Result (Unit {0}) × Registered P
    unfolding load_plugins
    plugins_in (some (list xs)) r = load_plugins 0 (items xs) r
    plugins_in _ r = (err (value_error "Invalid provider manifest: 'plugins' must be a list."), r)

    unfoldable pub load_approved_plugins : Value → Registered P → Result (Unit {0}) × Registered P
    unfolding plugins_in
    load_approved_plugins raw r = plugins_in (get_key "plugins" raw) r
