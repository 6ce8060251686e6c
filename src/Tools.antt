-- ===== src/Tools.antt =====
-- internal/tools: the arguments of the tools.
pub mod Args
