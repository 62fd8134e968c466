-- ===== src/Errors/Tests.antt =====
-- The errors at concrete values (error.rs).
use app_cortex_stt.Common.{◌≡◌, refl, codes}
use app_cortex_stt.Errors.{model_not_found, status}

not_found : status (model_not_found (codes "w")) ≡ 404
unfolding status
not_found = refl
