-- ===== src/App.antt =====
-- smallserver/app.py: Configuration is `SmallServer._resolve_server_config`, and Binding is
-- `_bind_and_schedule` up to its handle; Rollback shows what a failed binding leaves.
-- Dispatch is the registration of a static route and `dispatch`; Serving follows a route from one to
-- the other.
pub mod Configuration
pub mod Binding
pub mod Acquisition
pub mod Rollback
pub mod Dispatch
pub mod Serving
mod Tests
