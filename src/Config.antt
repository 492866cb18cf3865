-- ===== src/Config.antt =====
-- The functions of src/config/ for systems that lack one of the C library.
pub mod FormatString
