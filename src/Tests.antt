-- ===== src/Tests.antt =====
-- Concrete tables, and each theorem applied to them.
mod Samples
mod Jobs
mod Answers
mod Batch
mod Accounts
mod Worker
mod Deployments
