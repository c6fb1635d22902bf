-- ===== src/Repository.antt =====
-- app/repository.py: JobRepository. A method takes the database and returns it beside its result;
-- a method runs in one transaction, so a fault leaves the database as it was.
pub mod Tables
pub mod Recovery
pub mod Schedule
pub mod Workers
pub mod Claim
pub mod Lease
pub mod Groups
pub mod Submit
pub mod Rows
pub mod Consistency
pub mod History
