-- ===== src/Asm.antt =====
-- The assembler of the user programs, tools/assembler/rva.c: its symbol tables and the reading of
-- identifiers, numbers and operators from a source line.
pub mod Symbols
pub mod Lexer
pub mod Operators
pub mod Evaluate
pub mod Variable
pub mod Expression
pub mod Encode
pub mod Label
pub mod Passes
pub mod Directive
pub mod Elf
pub mod Hex
pub mod Output
pub mod Source
mod Tests
