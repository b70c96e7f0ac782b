-- ===== src/Layout/Direction.antt =====
-- src/workspace/layout.h: `enum leme_direction`. Its four values are the only ones, so the checks of
-- `leme_layout_direction_valid` hold by the type.
pub data Direction : Type 0 where
  left right up down : Direction
