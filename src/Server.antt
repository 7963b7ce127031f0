-- ===== src/Server.antt =====
-- smallserver/server.py: RequestParser is its `HTTPRequestParser`.
pub mod Config
pub mod Handle
pub mod RequestParser
pub mod RouteObserver
