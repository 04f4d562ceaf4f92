-- ===== src/Ecs.antt =====
-- Flakkari/Engine/EntityComponentSystem: sparse component arrays and the registry of entities.
pub mod SparseArray
pub mod Component
pub mod Registry
pub mod Factory
pub mod Systems
