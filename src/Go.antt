-- ===== src/Go.antt =====
-- The parts of Go's language and standard library that the program calls.
pub mod Sort
pub mod Text
pub mod Trim
pub mod Float
pub mod Whole
pub mod Search
pub mod Fnv
pub mod Words
pub mod Split
pub mod Atoi
