-- ===== src/Providers/Plugins.antt =====
-- The plugins of a manifest and their hashes.
use evidence_tool.Base.{
  ℕ, suc, String, ◌≡◌, refl, false, Option, none, some, List, [], ◌∷◌, arith, All, Result, ok, err,
  >>=-eq-ok, subst, contains,
}
use evidence_tool.Models.Value.{Value, Items, list, items, get_key}
use evidence_tool.Providers.{
  Registered, ProviderManifest, Modules, parse_manifest, source_of, verify, load_verified,
  load_plugin, load_plugins, plugins_in, load_approved_plugins,
}

module _ {P : Type 0} (modules : Modules P) where
  open modules use {origin, digest, lower}

  -- The module has a source file whose hash is the one of the manifest, but for case.
  pub record IsVerified (m : ProviderManifest) : Type 0 where
    pub path : String
    pub located : origin m.module_name ≡ some path
    pub not_builtin : contains ("" ∷ "built-in" ∷ "frozen" ∷ []) path ≡ false
    pub authentic : lower (digest path) ≡ lower m.sha256

  -- The item is a manifest that is verified.
  abbrev pub IsGenuine : Value → Type 0
  IsGenuine item =
      (m : ProviderManifest) × (index : ℕ) × (parse_manifest modules index item ≡ ok m)
      × IsVerified m

  source_of-located :
      (name : String) (o : Option String) (path : String)
      → source_of modules name o ≡ ok path
      → (o ≡ some path) × (contains ("" ∷ "built-in" ∷ "frozen" ∷ []) path ≡ false)
  unfolding source_of
  source_of-located name none path h = cc
  source_of-located name (some p) path h = ground arith

  verify-IsVerified : (m : ProviderManifest) → verify modules m ≡ ok tt → IsVerified m
  unfolding verify
  verify-IsVerified m h =
      let (path, from, same) =
        >>=-eq-ok (source_of modules m.module_name (origin m.module_name)) _ h in
      let (located, not_builtin) =
        source_of-located m.module_name (origin m.module_name) path from in
      record { path = path; located = located; not_builtin = not_builtin; authentic = ground arith }

  load_verified-ok :
      (m : ProviderManifest) (checked : Result (Unit {0})) (r : Registered P)
      → (load_verified modules m checked r).0 ≡ ok tt
      → checked ≡ ok tt
  unfolding load_verified
  load_verified-ok m (ok tt) r h = refl
  load_verified-ok m (err e) r h = cc

  load_plugin-manifest :
      (parsed : Result ProviderManifest) (r : Registered P)
      → (load_plugin modules parsed r).0 ≡ ok tt
      → (m : ProviderManifest) × (parsed ≡ ok m) × IsVerified m
  unfolding load_plugin
  load_plugin-manifest (err e) r h = cc
  load_plugin-manifest (ok m) r h =
      (m, refl, verify-IsVerified m (load_verified-ok m (verify modules m) r h))

  turn-ok :
      (outcome later : Result (Unit {0}) × Registered P)
      → (elim outcome.0 as (λ _. Result (Unit {0}) × Registered P) [
        | ok _ ↦ later
        | err e ↦ (err e, outcome.1)
      ]).0
        ≡ ok tt
      → (outcome.0 ≡ ok tt) × (later.0 ≡ ok tt)
  turn-ok (ok tt, r) later h = (refl, h)
  turn-ok (err e, r) later h = cc

  load_plugins-IsGenuine :
      (index : ℕ) (xs : List Value) (r : Registered P)
      → (load_plugins modules index xs r).0 ≡ ok tt
      → All IsGenuine xs
  unfolding load_plugins
  load_plugins-IsGenuine index [] r h = tt
  load_plugins-IsGenuine index (item ∷ rest) r h =
      let outcome = load_plugin modules (parse_manifest modules index item) r in
      let (loaded, later) = turn-ok outcome (load_plugins modules (suc index) rest outcome.1) h in
      let (m, parsed, verified) =
        load_plugin-manifest (parse_manifest modules index item) r loaded in
      ((m, index, parsed, verified), load_plugins-IsGenuine (suc index) rest outcome.1 later)

  -- When the plugins of a manifest have been loaded, every entry names a module with a source file
  -- whose hash is the one of the entry, but for case.
  pub load_approved_plugins-IsGenuine :
      (raw : Value) (xs : Items) (r : Registered P)
      → get_key "plugins" raw ≡ some (list xs)
      → (load_approved_plugins modules raw r).0 ≡ ok tt
      → All IsGenuine (items xs)
  unfolding load_approved_plugins plugins_in
  load_approved_plugins-IsGenuine raw xs r listed h =
      load_plugins-IsGenuine 0 (items xs) r
        (subst (λ (o : Option Value). (plugins_in modules o r).0 ≡ ok tt) listed h)
