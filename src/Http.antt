-- ===== src/Http.antt =====
-- smallserver/http.py
pub mod Headers
pub mod Request
pub mod Response
