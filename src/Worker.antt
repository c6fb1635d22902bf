-- ===== src/Worker.antt =====
-- The compute worker: worker/main.py and worker/data_plane.py.
pub mod Cache
pub mod Keeper
pub mod Reports
pub mod Workspace
pub mod Run
