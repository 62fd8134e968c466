-- ===== src/Settings/Restart.antt =====
-- Two starts of the server, one after the other (main.rs, the pre-load; settings.rs,
-- `migrate_legacy_preload`).
use app_cortex_stt.Common.{
  Option-cases, ap, inl, inr, ◌≡◌, ◌⊎◌, true, List, none, some, arith, is_some, Bool,
}
use app_cortex_stt.Catalog.{InstalledVariant}
use app_cortex_stt.Settings.{
  Settings, AppConfig, migrate_legacy_preload, reloaded, resolve, startup,
}

startup-eq :
    (config : AppConfig) (s : Settings) (before after : List InstalledVariant) (saves : Bool)
    → (config.preload ≡ none) ⊎ (is_some s.preload ≡ true)
    → startup config (startup config (some s) before true).1 after saves
      ≡ startup config (some s) before true
unfolding startup resolve migrate_legacy_preload reloaded
startup-eq config s before after saves h = ground (arith, h)

startup-stored :
    (config : AppConfig) (s : Settings) (before after : List InstalledVariant) (saves : Bool)
    → (startup config (startup config (some s) before true).1 after saves).1
      ≡ (startup config (some s) before true).1
unfolding startup resolve migrate_legacy_preload reloaded
startup-stored config s before after saves = ground arith

-- A start whose migrated settings are written leaves nothing to migrate: the next start stores
-- nothing new, whatever the options are, whatever is installed then and whether it could write or
-- not. And it pre-loads the same, unless the options name a key and the stored settings had none.
pub startup-startup :
    (config : AppConfig) (s : Settings) (before after : List InstalledVariant) (saves : Bool)
    → let first = startup config (some s) before true in
      let second = startup config first.1 after saves in
      (second.1 ≡ first.1)
      × ((second.0 ≡ first.0) ⊎ ((is_some config.preload ≡ true) × (s.preload ≡ none)))
startup-startup config s before after saves = (
  startup-stored config s before after saves,
  elim (Option-cases config.preload) [
    | inl n ↦ inl (ap (λ p. p.0) (startup-eq config s before after saves (inl n)))
    | inr (key, named) ↦ elim (Option-cases s.preload) [
      | inl m ↦ inr (ap is_some named, m)
      | inr (k, m) ↦
          inl (ap (λ p. p.0) (startup-eq config s before after saves (inr (ap is_some m))))
    ]
  ],
)
