-- ===== src/Lexer.antt =====
-- engine/console/simpleLexer.h: the tokenizer of the script language.
pub mod Token
pub mod State
pub mod Decode
pub mod Scan
pub mod Words
pub mod Next
pub mod Process
pub mod Cursor
pub mod Longest
pub mod Keywords
mod Tests
