-- ===== src/WebSocket.antt =====
-- smallserver/websocket.py
pub mod FrameGuard
pub mod Mailbox
pub mod Upgrade
