-- ===== src/StringStack.antt =====
-- engine/console/stringStack.h and stringStack.cc: `StringStack`, the operand stack of the evaluator.
pub mod State
pub mod Moves
pub mod Args
pub mod Frames
pub mod Keeps
pub mod Within
pub mod Calls
pub mod Concat
mod Tests
