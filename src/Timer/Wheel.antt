-- ===== src/Timer/Wheel.antt =====
-- include/faio/detail/runtime/core/timer/wheel.hpp: the wheels of every level.
pub mod Interface
pub mod Leaf
pub mod Node
pub mod LeafLaws
pub mod NodeView
pub mod NodeChange
pub mod NodeExpire
pub mod NodeLaws
pub mod Rotate
pub mod Levels
pub mod Refinement
mod Tests
