-- ===== src/Compiler.antt =====
-- engine/console/compiler.cc and compiler.h: the tables of the compiler and its code stream.
pub mod StringTable
pub mod CodeStream
pub mod FloatTable
pub mod IdentTable
pub mod VarTypes
mod Tests
mod TableTests
