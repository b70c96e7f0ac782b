-- ===== src/Shell.antt =====
-- The window policies of src/shell: boxes and destinations.
pub mod Policy
pub mod Destination
