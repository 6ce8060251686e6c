-- ===== src/Http.antt =====
-- internal/httptransport: the Streamable HTTP transport. Sessions bound to a credential are in
-- Session, the bearer token in Token, the chain of request checks in Middleware.
pub mod Session
pub mod Token
pub mod Middleware
