-- ===== src/Output.antt =====
-- output: the arrangement of the monitors.
pub mod Placement
