-- ===== src/Examples.antt =====
-- The theorems applied to concrete windows, screens and texts.
pub mod Numbers
pub mod Trees
pub mod Screens
pub mod Texts
pub mod TagSets
pub mod Moves
pub mod Config
