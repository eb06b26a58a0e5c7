-- ===== src/DemoData.antt =====
-- app/services/demo_seed.py: the demo history of an account with no events.
pub mod Table
pub mod EarlyRows
pub mod LateRows
pub mod Clock
pub mod Seed
pub mod Tagged
pub mod Rows
pub mod Seeded
