-- ===== src/Tagging.antt =====
-- app/services/tagging.py: auto-tagging. How a run is started is here, the run in a child.
pub mod Dispatch
pub mod Run
