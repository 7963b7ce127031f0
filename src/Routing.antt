-- ===== src/Routing.antt =====
-- smallserver/routing.py: Pattern finds the named groups of a pattern, Router has the class of that
-- name, Resolve its lookup, and Static is about its static routes.
pub mod Pattern
pub mod Router
pub mod Resolve
pub mod Static
mod Tests
