-- ===== src/Engine.antt =====
-- The engine layer (cortex-stt/src/engine): the pool of one model's engine instances
-- (pool.rs) and the manager of the loaded models (manager.rs).
pub mod Pool
pub mod Manager
