-- ===== src/Search.antt =====
-- internal/search: the searches of the vault. The ranked search of bm25.go is not modelled.
pub mod Regex
