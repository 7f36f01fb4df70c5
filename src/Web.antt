-- ===== src/Web.antt =====
-- src/web.
pub mod Galois
pub mod ReedSolomon
pub mod Codewords
pub mod Matrix
pub mod Masking
