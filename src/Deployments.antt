-- ===== src/Deployments.antt =====
-- The deployments of applications: app/app_deployments.py and app/app_deployment_contracts.py.
pub mod Contracts
pub mod Checked
pub mod Tables
pub mod Approval
pub mod Authority
pub mod Requests
pub mod Reconcile
pub mod Settle
pub mod Registrations
pub mod Cutover
pub mod Previews
pub mod Reconciliation
pub mod Generations
pub mod Consistency
pub mod Keeps
pub mod History
