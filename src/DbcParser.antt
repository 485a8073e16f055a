-- ===== src/DbcParser.antt =====
-- `can_handler/dbc_handler/dbc_parser.cpp`: the recursive-descent parser of DBC files.
pub mod Monad
pub mod Lexer
pub mod Range
pub mod Signal
pub mod Message
pub mod Sections
pub mod Values
pub mod File
pub mod Numbers
pub mod Termination
mod Tests
