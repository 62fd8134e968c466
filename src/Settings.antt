-- ===== src/Settings.antt =====
-- The settings and what a start makes of them (cortex-stt/src/settings.rs, config.rs, the
-- settings blob of db/settings.rs and the pre-load of main.rs). Durations are in seconds.
pub mod Restart
mod Tests
use app_cortex_stt.Common.{
  ℕ, zero, suc, Bool, true, false, List, [], ◌∷◌, Text, KeyMap, Option, none, some, if◌then◌else◌,
  is_some, leb,
}
use app_cortex_stt.Retention.{RetentionPolicy}
use app_cortex_stt.Variants.{as_key}
use app_cortex_stt.Catalog.{InstalledVariant, of_model}

pub data EngineBackend : Type 0 where
  auto : EngineBackend
  cpu : EngineBackend
  cuda : EngineBackend

pub record BackendOverride : Type 0 where
  pub backend : EngineBackend

pub record Settings : Type 0 where
  pub preload : Option Text
  pub legacy_default_model : Option Text
  pub legacy_preload_default_model : Bool
  pub pool_size : ℕ
  pub max_loaded_models : ℕ
  pub idle_timeout_secs : Option ℕ
  pub transcription_timeout_secs : Option ℕ
  pub save_audio : Bool
  pub audio_retention : RetentionPolicy
  pub record_retention : RetentionPolicy
  pub timezone : Text
  pub backend_overrides : KeyMap Text BackendOverride

abbrev pub default_settings : Settings
default_settings = record {
  preload = none;
  legacy_default_model = none;
  legacy_preload_default_model = false;
  pool_size = 1;
  max_loaded_models = 1;
  idle_timeout_secs = none;
  transcription_timeout_secs = some 300;
  save_audio = true;
  audio_retention = RetentionPolicy.days 7;
  record_retention = RetentionPolicy.days 30;
  timezone = b'a' ∷ b'u' ∷ b't' ∷ b'o' ∷ [];
  backend_overrides = [];
}

-- Zero or none means that a model is kept loaded.
unfoldable pub engine_idle_timeout : Settings → Option ℕ
engine_idle_timeout s = timeout s.idle_timeout_secs
  where
    timeout : Option ℕ → Option ℕ
    timeout none = none
    timeout (some zero) = none
    timeout (some (suc n)) = some (suc n)

-- The choice that the first of two makes, or else that of the second.
abbrev pub or_else : Option Text → Option Text → Option Text
or_else none b = b
or_else (some a) b = some a

-- The legacy model is asked for only where it was pre-loaded and no Variant is set.
abbrev pub migrated_preload : (Text → Option Text) → Option Text → Bool → Option Text → Option Text
migrated_preload resolve none true (some model) = resolve model
migrated_preload resolve none true none = none
migrated_preload resolve none false legacy = none
migrated_preload resolve (some key) wanted legacy = some key

-- The settings after the call, and whether the stored blob must be written again.
unfoldable pub migrate_legacy_preload : (Text → Option Text) → Settings → Settings × Bool
migrate_legacy_preload resolve s = (
  record s {
    preload =
        migrated_preload resolve s.preload s.legacy_preload_default_model s.legacy_default_model;
    legacy_default_model = none;
    legacy_preload_default_model = false;
  },
  if is_some s.legacy_default_model then true else s.legacy_preload_default_model,
)

-- What is read back of settings that were saved: the legacy fields are not written.
unfoldable pub reloaded : Settings → Settings
reloaded s = record s { legacy_default_model = none; legacy_preload_default_model = false }

-- The options of the command line, the environment and the file that a start resolves with the
-- settings.
pub record AppConfig : Type 0 where
  pub pool_size : ℕ
  pub max_loaded_models : ℕ
  pub idle_timeout_secs : ℕ
  pub preload : Option Text

pub record EffectiveConfig : Type 0 where
  pub pool_size : ℕ
  pub max_loaded_models : ℕ
  pub idle_timeout : Option ℕ
  pub preload : Option Text
  pub backend_overrides : KeyMap Text BackendOverride

unfoldable pub resolve : AppConfig → Option Settings → EffectiveConfig
unfolding engine_idle_timeout
resolve config none = record {
  pool_size = config.pool_size;
  max_loaded_models = config.max_loaded_models;
  idle_timeout = option config.idle_timeout_secs;
  preload = config.preload;
  backend_overrides = [];
}
  where
    option : ℕ → Option ℕ
    option zero = none
    option (suc n) = some (suc n)
resolve config (some s) = record {
  pool_size = s.pool_size;
  max_loaded_models = s.max_loaded_models;
  idle_timeout = engine_idle_timeout s;
  preload = or_else s.preload config.preload;
  backend_overrides = s.backend_overrides;
}

-- `min_by_key` on the install time: of several earliest ones the first.
unfoldable pub earliest : List InstalledVariant → Option InstalledVariant
earliest [] = none
earliest (v ∷ rest) = elim (earliest rest) [
  | none ↦ some v
  | some w ↦ if leb v.installed_at w.installed_at then some v else some w
]

-- The key of the Variant that a release before the Variants served for a model.
unfoldable pub served_variant : List InstalledVariant → Text → Option Text
unfolding of_model earliest as_key
served_variant installed model = elim (earliest (of_model installed model)) [
  | none ↦ none
  | some v ↦ some (as_key v.key)
]

-- The key that a start pre-loads and the settings that are stored after it, where `saves` tells
-- if the migrated ones can be written.
unfoldable pub startup :
    AppConfig → Option Settings → List InstalledVariant → Bool → Option Text × Option Settings
unfolding resolve migrate_legacy_preload reloaded served_variant
startup config none installed saves = ((resolve config none).preload, none)
startup config (some s) installed saves =
    let (stored, moved) = migrate_legacy_preload (served_variant installed) s in
    let preload = (resolve config (some s)).preload in
    if moved
    then (or_else preload stored.preload, some (if saves then reloaded stored else s))
    else (preload, some s)
