-- ===== src/Tests/Plugins.antt =====
-- The registry of providers at concrete inputs.
use evidence_tool.Base.{
  count_chars, String, ◌≡◌, refl, true, none, some, [], ◌∷◌, All, ok, string_dec,
}
use evidence_tool.Base.Dict.{lookup, insert}
use evidence_tool.Models.Value.{Value, Items, text, object, list, items, to_items, get_key}
use evidence_tool.Providers.{
  Registered, Modules, is_some, register_provider, all_hex, manifest_of, parse_manifest, source_of,
  verify, approve, load_verified, load_plugin, load_plugins, plugins_in, load_approved_plugins,
}
use evidence_tool.Providers.Register.{IsRegistry, register_provider-IsRegistry}
use evidence_tool.Providers.Plugins.{IsGenuine, load_approved_plugins-IsGenuine}

abbrev empty : Registered String
empty = record { providers = []; trust = [] }

empty-IsRegistry : IsRegistry empty
unfolding lookup
empty-IsRegistry namespace = refl

abbrev with_redis : Registered String
with_redis = (register_provider "redis" "RedisProvider" none empty).1

with_redis-IsRegistry : IsRegistry with_redis
with_redis-IsRegistry =
    register_provider-IsRegistry "redis" "RedisProvider" none empty empty-IsRegistry

redis_is_there : is_some (lookup "redis" with_redis.providers) ≡ true
unfolding register_provider lookup insert string_dec
redis_is_there = refl

abbrev hash : String
hash = "0123456789abcdef0123456789abcdef0123456789abcdef0123456789abcdef"

abbrev modules : Modules String
modules = record {
  origin = λ name. some "/opt/plugins/ldap.py";
  digest = λ path. hash;
  lower = λ s. s;
  import_module = λ name r. register_provider "ldap" "LdapProvider" none r;
  number = λ n. "0";
}

abbrev entries : Items
entries = to_items (
    object
      (("namespace", text "ldap") ∷ ("module", text "plugins.ldap") ∷ ("sha256", text hash) ∷ [])
    ∷ [])

abbrev manifest : Value
manifest = object (("plugins", list entries) ∷ [])

names_entries : get_key "plugins" manifest ≡ some (list entries)
unfolding lookup string_dec
names_entries = refl

loads_ldap : (load_approved_plugins modules manifest with_redis).0 ≡ ok tt
unfolding load_approved_plugins plugins_in load_plugins load_plugin load_verified approve verify
    source_of parse_manifest manifest_of count_chars all_hex register_provider lookup insert
    string_dec
loads_ldap = refl

load_approved_plugins-IsGenuine_example : All (IsGenuine modules) (items entries)
load_approved_plugins-IsGenuine_example =
    load_approved_plugins-IsGenuine modules manifest entries with_redis names_entries loads_ldap
