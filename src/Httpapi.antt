-- ===== src/Httpapi.antt =====
-- internal/httpapi: the administrator's sessions (auth.go) and the handler of votes (server.go).
pub mod Auth
pub mod Server
