-- ===== src/Math.antt =====
-- Flakkari/Engine/Math: vectors.
pub mod Arithmetic
pub mod Vector
