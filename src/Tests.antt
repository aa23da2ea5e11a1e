-- ===== src/Tests.antt =====
-- Concrete layouts, workspaces and tab managers, and the theorems applied to them.
mod Layouts
mod Workspaces
mod Managers
mod Entries
mod Graphs
mod Notices
mod Runs
mod Drivers
mod Goals
mod Screens
