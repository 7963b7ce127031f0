-- ===== src/Http2.antt =====
-- smallserver/http2.py
pub mod Config
pub mod FrameBudget
pub mod RequestHeaders
pub mod Connection
pub mod Protocol
