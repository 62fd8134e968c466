-- ===== src/Settings/Tests.antt =====
-- Starts of the server with settings of an older release (settings.rs, main.rs).
use app_cortex_stt.Common.{
  is_some, ◌⊎◌, ℕ, ◌≡◌, refl, true, false, List, [], ◌∷◌, Text, Option, none, some, text_key,
  ℕ_discrete,
}
use app_cortex_stt.Variants.{as_key}
use app_cortex_stt.Catalog.{InstalledVariant, of_model}
use app_cortex_stt.Settings.{
  Settings, AppConfig, default_settings, engine_idle_timeout, migrate_legacy_preload, reloaded,
  resolve, startup, earliest, served_variant,
}
use app_cortex_stt.Settings.Restart.{startup-startup}

program : Unit {0}
unfolding engine_idle_timeout migrate_legacy_preload reloaded resolve startup earliest
    served_variant of_model as_key text_key ℕ_discrete
program = tt

abbrev old_settings : Settings
old_settings = record default_settings {
  legacy_default_model = some (b'w' ∷ []);
  legacy_preload_default_model = true;
}

abbrev options : Option Text → AppConfig
options key = record { pool_size = 1; max_loaded_models = 1; idle_timeout_secs = 60; preload = key }

abbrev variant : ℕ → ℕ → InstalledVariant
variant q at = record {
  key = record { model = b'w' ∷ []; quant = some (q ∷ []) };
  path = b'w' ∷ b'/' ∷ q ∷ [];
  file_bytes = 2097152;
  sha256 = none;
  installed_at = at;
}

abbrev disk : List InstalledVariant
disk = variant b'4' 90 ∷ variant b'8' 70 ∷ variant b'2' 70 ∷ []

abbrev w8 : Text
w8 = b'w' ∷ b':' ∷ b'8' ∷ []

first_start :
    startup (options none) (some old_settings) disk true
    ≡ (some w8, some (record default_settings { preload = some w8 }))
unfolding program
first_start = refl

-- The key of the options is loaded by the first start, the migrated one by the second.
switched :
    ((startup (options (some (b'b' ∷ []))) (some old_settings) disk true).0 ≡ some (b'b' ∷ []))
    × ((startup
          (options (some (b'b' ∷ [])))
          (startup (options (some (b'b' ∷ []))) (some old_settings) disk true).1
          disk
          true).0
        ≡ some w8)
unfolding program
switched = (refl, refl)

not_preloaded :
    (startup
      (options none)
      (some (record old_settings { legacy_preload_default_model = false }))
      disk
      true).0
    ≡ none
unfolding program
not_preloaded = refl

zero_is_forever :
    engine_idle_timeout (record default_settings { idle_timeout_secs = some 0 }) ≡ none
unfolding program
zero_is_forever = refl

startup-startup_example :
    let first = startup (options none) (some old_settings) disk true in
    let second = startup (options none) first.1 [] false in
    (second.1 ≡ first.1)
    × ((second.0 ≡ first.0)
        ⊎ ((is_some (options none).preload ≡ true) × (old_settings.preload ≡ none)))
startup-startup_example = startup-startup (options none) old_settings disk [] false
