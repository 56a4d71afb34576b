-- ===== src/Rewrite.antt =====
-- crates/greeg/src/rewrite.rs: the words of an `rg` or a `grep` command, parsed and written again
-- as greeg's. A text is its code points; an error is its kind and what it names.
pub mod Flags
pub mod Parse
pub mod Emit
pub mod Bracket
pub mod Posix
pub mod Scanned
pub mod Classes
pub mod Escapes
pub mod Balanced
pub mod Cli
pub mod Plain
pub mod Applied
pub mod Kept
pub mod Faithful
pub mod GrepFlags
pub mod Reader
pub mod Grep
pub mod GrepKept
pub mod GrepSteps
pub mod GrepFaithful
pub mod CliReader
mod Tests
mod GrepTests
mod PosixTests
