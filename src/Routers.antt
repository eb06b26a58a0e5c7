-- ===== src/Routers.antt =====
-- app/routers/*.py: the routes. A route returns its status with what it answers, or raises.
pub mod Isolation
pub mod Internal
pub mod Tags
pub mod Events
pub mod Users
pub mod Seeding
