-- ===== src/Scripts.antt =====
-- The scripts under scripts/ that run the services by hand.
pub mod Roundtrip
pub mod SeedTestEvent
pub mod CreateTables
pub mod TaggingManual
