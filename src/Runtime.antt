-- ===== src/Runtime.antt =====
-- What the services run in: exceptions, the database session, the calls that leave the process, and
-- the answers of everything that is not this program.
pub mod Errors
pub mod Wire
pub mod World
pub mod Ends
pub mod Keeps
pub mod Triple
