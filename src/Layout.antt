-- ===== src/Layout.antt =====
-- src/workspace/layout.c: how the windows of a tag share the screen.
pub mod View
pub mod Direction
pub mod Sequence
pub mod Node
pub mod Tree
pub mod Arrange
pub mod Detach
pub mod Resize
pub mod Drag
pub mod Neighbor
pub mod Swap
pub mod Columns
pub mod Geometry
pub mod Candidates
pub mod Kinds
pub mod Drop
pub mod Session
